-- ===== src/Observability/Recorded.antt =====
-- The capacities that RuntimeObservability has recorded, from one call to the next.
use tesserix_mcp_runtime.Base.{
  ℕ, Bool, true, false, ◌&&◌, String, Option, none, some, leb, ◌==◌, length, ℤ, if◌then◌else◌, ◌≡◌,
  refl, subst, sym, arith, Bool-cases, inl, inr, eq_iff,
}
use tesserix_mcp_runtime.Base.Dict.{get, put, get-put}
use tesserix_mcp_runtime.Execution.Admission.{RuntimeLimit}
use tesserix_mcp_runtime.Observability.{
  Observability, SeriesKey, Exporter, drop, lose, flush, export, add_retry, add_limit, add_call,
}
use tesserix_mcp_runtime.Observability.Capacity.{settle, move_in_flight, admit_tool, admit_server}

-- a capacity that is recorded stays as it is
pub record Keeps (s t : Observability) : Type 0 where
  pub server : (c : ℕ) → s.server_capacity ≡ some c → t.server_capacity ≡ some c
  pub tools : (k : String) (c : ℕ) → get s.tool_capacity k ≡ some c → get t.tool_capacity k ≡ some c

pub Keeps-refl : (s : Observability) → Keeps s s
Keeps-refl s = record { server = λ c h. h; tools = λ k c h. h }

pub Keeps-trans : (s t u : Observability) → Keeps s t → Keeps t u → Keeps s u
Keeps-trans s t u p q = record {
  server = λ c h. q.server c (p.server c h);
  tools = λ k c h. q.tools k c (p.tools k c h);
}

pub same-Keeps :
    (s t : Observability)
    → t.server_capacity ≡ s.server_capacity
    → t.tool_capacity ≡ s.tool_capacity
    → Keeps s t
same-Keeps s t h e = record {
  server = λ c i. subst (λ o. o ≡ some c) (sym h) i;
  tools = λ k c i. subst (λ d. get d k ≡ some c) (sym e) i;
}

pub drop-Keeps : (s : Observability) → Keeps s (drop s)
unfolding drop
drop-Keeps s = same-Keeps s (drop s) refl refl

pub lose-Keeps : (n : ℕ) (s : Observability) → Keeps s (lose n s)
unfolding lose
lose-Keeps n s = same-Keeps s (lose n s) refl refl

pub export-Keeps : (e : Option Exporter) (s : Observability) → Keeps s (export e s)
unfolding export flush lose
export-Keeps none s = Keeps-refl s
export-Keeps (some e) s = same-Keeps s (export (some e) s) (ground arith) (ground arith)

-- an event that is dropped, or recorded and exported
dropped_or-Keeps :
    (full : Bool) (e : Option Exporter) (s next : Observability)
    → Keeps s next
    → Keeps s (if full then drop s else export e next)
dropped_or-Keeps true e s next k = drop-Keeps s
dropped_or-Keeps false e s next k = Keeps-trans s next (export e next) k (export-Keeps e next)

pub add_retry-Keeps :
    (e : Option Exporter) (tool : String) (s : Observability) → Keeps s (add_retry e tool s)
unfolding add_retry
add_retry-Keeps e tool s = dropped_or-Keeps _ e s _ (same-Keeps s _ refl refl)

pub add_limit-Keeps :
    (e : Option Exporter) (key : RuntimeLimit × String) (s : Observability)
    → Keeps s (add_limit e key s)
unfolding add_limit
add_limit-Keeps e key s = dropped_or-Keeps _ e s _ (same-Keeps s _ refl refl)

pub add_call-Keeps :
    (e : Option Exporter) (key : SeriesKey) (value : ℕ) (s : Observability)
    → Keeps s (add_call e key value s)
unfolding add_call
add_call-Keeps e key value s = dropped_or-Keeps _ e s _ (same-Keeps s _ refl refl)

module _ (exporter : Option Exporter) (tool : String) (delta : ℤ) (sc tc : ℕ) where
  settle-Keeps : (o p : Option ℕ) (s : Observability) → Keeps s (settle exporter tool sc tc o p s)
  unfolding settle
  settle-Keeps none p s = drop-Keeps s
  settle-Keeps (some n) none s = drop-Keeps s
  settle-Keeps (some n) (some m) s = elim (Bool-cases (leb n sc && leb m tc)) [
    | inr full ↦ rw full (drop-Keeps s)
    | inl room ↦
        let next : Observability = record s {
          server_in_flight = n;
          tool_in_flight = put s.tool_in_flight tool m;
        } in
        rw room (
          Keeps-trans s next (export exporter next) (same-Keeps s next refl refl)
            (export-Keeps exporter next))
  ]

  move-Keeps : (s : Observability) → Keeps s (move_in_flight exporter tool delta sc tc s)
  unfolding move_in_flight
  move-Keeps s = settle-Keeps _ _ s

  admit_tool-Keeps :
      (o : Option ℕ) (s : Observability)
      → get s.tool_capacity tool ≡ o
      → Keeps s (admit_tool exporter tool delta sc tc o s)
  unfolding admit_tool
  admit_tool-Keeps (some known) s is = elim (Bool-cases (known == tc)) [
    | inl same ↦ rw same (move-Keeps s)
    | inr other ↦ rw other (drop-Keeps s)
  ]
  admit_tool-Keeps none s is_new = elim (Bool-cases (leb 128 (length s.tool_capacity.entries))) [
    | inl full ↦ rw full (drop-Keeps s)
    | inr room ↦
        let next : Observability = record s {
          tool_capacity = put s.tool_capacity tool tc;
          tool_in_flight = put s.tool_in_flight tool 0;
        } in
        rw room (
          Keeps-trans s next (move_in_flight exporter tool delta sc tc next)
            (record {
              server = λ c h. h;
              tools = λ k c h.
                  ground (arith, h, is_new, get-put s.tool_capacity tool k tc, eq_iff tool k);
            })
            (move-Keeps next))
  ]

  pub admit_server-Keeps :
      (o : Option ℕ) (s : Observability)
      → s.server_capacity ≡ o
      → Keeps s (admit_server exporter tool delta sc tc o s)
  unfolding admit_server
  admit_server-Keeps (some known) s is = elim (Bool-cases (known == sc)) [
    | inl same ↦ rw same (admit_tool-Keeps _ s refl)
    | inr other ↦ rw other (drop-Keeps s)
  ]
  admit_server-Keeps none s is_new =
      let next : Observability = record s { server_capacity = some sc } in
      Keeps-trans s next (admit_tool exporter tool delta sc tc (get s.tool_capacity tool) next)
        (record { server = λ c h. ground (arith, h, is_new); tools = λ k c h. h })
        (admit_tool-Keeps _ next refl)
