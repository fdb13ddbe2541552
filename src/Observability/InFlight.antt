-- ===== src/Observability/InFlight.antt =====
-- A change of the calls in flight, and what the counters satisfy.
use tesserix_mcp_runtime.Base.{
  ℕ, zero, suc, ◌+◌, true, false, ◌&&◌, String, Option, none, some, leb, ◌==◌, length, ℤ, pos,
  negsuc, ◌≡◌, refl, subst, sym, arith, Bool-cases, inl, inr, eq_iff,
}
use tesserix_mcp_runtime.Base.Dict.{get, put, get-put}
use tesserix_mcp_runtime.Observability.{Observability, Exporter, count_of}
use tesserix_mcp_runtime.Observability.Capacity.{
  moved, settle, move_in_flight, admit_tool, admit_server,
}
use tesserix_mcp_runtime.Observability.Counted.{
  total-put, length-put, within, Gauge, Counted, with_drops, drop-Counted, export-Counted,
}

-- two counts that move by the same amount keep their difference
moved_together :
    (n m : ℕ) (d : ℤ) (n' m' : ℕ) → moved n d ≡ some n' → moved m d ≡ some m' → n' + m ≡ n + m'
unfolding moved
moved_together n m (pos k) n' m' h e = ground (arith, h, e)
moved_together zero m (negsuc k) n' m' h e = ground (arith, h)
moved_together (suc n) zero (negsuc k) n' m' h e = ground (arith, e)
moved_together (suc n) (suc m) (negsuc zero) n' m' h e = ground (arith, h, e)
moved_together (suc n) (suc m) (negsuc (suc k)) n' m' h e =
    omega (arith, moved_together n m (negsuc k) n' m' h e)

module _ (exporter : Option Exporter) (tool : String) (delta : ℤ) (sc tc : ℕ) where
  moved-Gauge :
      (n m : ℕ) (s : Observability)
      → Gauge s.server_in_flight s.server_capacity s.tool_in_flight s.tool_capacity
      → s.server_capacity ≡ some sc
      → get s.tool_capacity tool ≡ some tc
      → moved s.server_in_flight delta ≡ some n
      → moved (count_of (get s.tool_in_flight tool)) delta ≡ some m
      → (leb n sc && leb m tc) ≡ true
      → Gauge n s.server_capacity (put s.tool_in_flight tool m) s.tool_capacity
  moved-Gauge n m s g is_server is_tool h e room = record {
    sum = omega (
      arith,
      g.sum,
      total-put s.tool_in_flight tool m,
      moved_together s.server_in_flight (count_of (get s.tool_in_flight tool)) delta n m h e,
    );
    server_within = subst (λ o. within o n ≡ true) (sym is_server) (ground (arith, room));
    tool_within = λ k.
        ground
          (arith, room, is_tool, g.tool_within k, get-put s.tool_in_flight tool k m, eq_iff tool k);
    few_tools = g.few_tools;
  }

  -- a tool that is new has no calls in flight
  new-Gauge :
      (s : Observability)
      → Gauge s.server_in_flight s.server_capacity s.tool_in_flight s.tool_capacity
      → get s.tool_capacity tool ≡ none
      → leb 128 (length s.tool_capacity.entries) ≡ false
      → Gauge s.server_in_flight s.server_capacity
          (put s.tool_in_flight tool 0)
          (put s.tool_capacity tool tc)
  new-Gauge s g is_new room =
      let idle : count_of (get s.tool_in_flight tool) ≡ 0 =
        ground (arith, is_new, g.tool_within tool) in
      record {
        sum = omega (arith, g.sum, idle, total-put s.tool_in_flight tool 0);
        server_within = g.server_within;
        tool_within = λ k. ground (
          arith,
          g.tool_within k,
          get-put s.tool_in_flight tool k 0,
          get-put s.tool_capacity tool k tc,
        );
        few_tools = ground (arith, room, is_new, length-put s.tool_capacity tool tc);
      }

  first-Gauge :
      (s : Observability)
      → Gauge s.server_in_flight s.server_capacity s.tool_in_flight s.tool_capacity
      → s.server_capacity ≡ none
      → Gauge s.server_in_flight (some sc) s.tool_in_flight s.tool_capacity
  first-Gauge s g is =
      let idle : within none s.server_in_flight ≡ true =
        subst (λ o. within o s.server_in_flight ≡ true) is g.server_within in
      record {
        sum = g.sum;
        server_within = ground (arith, idle);
        tool_within = g.tool_within;
        few_tools = g.few_tools;
      }

  settle-Counted :
      (o p : Option ℕ) (s : Observability)
      → Counted s
      → s.server_capacity ≡ some sc
      → get s.tool_capacity tool ≡ some tc
      → moved s.server_in_flight delta ≡ o
      → moved (count_of (get s.tool_in_flight tool)) delta ≡ p
      → Counted (settle exporter tool sc tc o p s)
  unfolding settle
  settle-Counted none p s c is_server is_tool h e = drop-Counted s c
  settle-Counted (some n) none s c is_server is_tool h e = drop-Counted s c
  settle-Counted (some n) (some m) s c is_server is_tool h e =
      elim (Bool-cases (leb n sc && leb m tc)) [
        | inr full ↦ rw full (drop-Counted s c)
        | inl room ↦
            let next : Observability = record s {
              server_in_flight = n;
              tool_in_flight = put s.tool_in_flight tool m;
            } in
            rw room (
              export-Counted exporter next (
                with_drops s next c (moved-Gauge n m s c.gauge is_server is_tool h e room)
                  (refl, refl, refl) c.pending_within))
      ]

  move-Counted :
      (s : Observability)
      → Counted s
      → s.server_capacity ≡ some sc
      → get s.tool_capacity tool ≡ some tc
      → Counted (move_in_flight exporter tool delta sc tc s)
  unfolding move_in_flight
  move-Counted s c is_server is_tool = settle-Counted _ _ s c is_server is_tool refl refl

  admit_tool-Counted :
      (o : Option ℕ) (s : Observability)
      → Counted s
      → s.server_capacity ≡ some sc
      → get s.tool_capacity tool ≡ o
      → Counted (admit_tool exporter tool delta sc tc o s)
  unfolding admit_tool
  admit_tool-Counted (some known) s c is_server is_tool = elim (Bool-cases (known == tc)) [
    | inl same ↦
        let is : get s.tool_capacity tool ≡ some tc = ground (arith, is_tool, same) in
        rw same (move-Counted s c is_server is)
    | inr other ↦ rw other (drop-Counted s c)
  ]
  admit_tool-Counted none s c is_server is_new =
      elim (Bool-cases (leb 128 (length s.tool_capacity.entries))) [
        | inl full ↦ rw full (drop-Counted s c)
        | inr room ↦
            let next : Observability = record s {
              tool_capacity = put s.tool_capacity tool tc;
              tool_in_flight = put s.tool_in_flight tool 0;
            } in
            rw room (
              move-Counted next
                (with_drops s next c (new-Gauge s c.gauge is_new room) (refl, refl, refl)
                  c.pending_within)
                is_server (ground (arith, get-put s.tool_capacity tool tool tc, eq_iff tool tool)))
      ]

  pub admit_server-Counted :
      (o : Option ℕ) (s : Observability)
      → Counted s
      → s.server_capacity ≡ o
      → Counted (admit_server exporter tool delta sc tc o s)
  unfolding admit_server
  admit_server-Counted (some known) s c is = elim (Bool-cases (known == sc)) [
    | inl same ↦
        let is_server : s.server_capacity ≡ some sc = ground (arith, is, same) in
        rw same (admit_tool-Counted _ s c is_server refl)
    | inr other ↦ rw other (drop-Counted s c)
  ]
  admit_server-Counted none s c is =
      let next : Observability = record s { server_capacity = some sc } in
      admit_tool-Counted _ next
        (with_drops s next c (first-Gauge s c.gauge is) (refl, refl, refl) c.pending_within) refl
        refl
