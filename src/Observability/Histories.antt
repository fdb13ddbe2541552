-- ===== src/Observability/Histories.antt =====
-- The counters in every history of calls.
use tesserix_mcp_runtime.Base.{
  ℕ, ◌+◌, ◌*◌, not, ◌&&◌, String, Option, leb, length, is_some, ℤ, Number, ◌≡◌, refl, subst, arith,
  Bool-cases, inl, inr,
}
use tesserix_mcp_runtime.Base.Dict.{get, put}
use tesserix_mcp_runtime.Base.Text.{codes}
use tesserix_mcp_runtime.Contracts.Failure.{Result, ok, err, ◌>>=◌, ◌>>◌, check}
use tesserix_mcp_runtime.Application.{RuntimeOutcome}
use tesserix_mcp_runtime.Execution.Admission.{RuntimeLimit}
use tesserix_mcp_runtime.Observability.{
  RuntimeOperation, is_dimension, tool_dimension, key_of, SeriesKey, Observability, init, Exporter,
  count_of, record_dropped, add_retry, record_retry, same_limit, same_series, add_limit,
  record_limit, add_call, record_call, add_cancellation,
}
use tesserix_mcp_runtime.Observability.Durations.{duration, observe, histogram_of}
use tesserix_mcp_runtime.Observability.Series.{find, store, length-store}
use tesserix_mcp_runtime.Observability.Capacity.{is_unit, admit_server, change_in_flight}
use tesserix_mcp_runtime.Observability.Counted.{
  Counted, init-Counted, drop-Counted, lose-Counted, export-Counted, length-put,
}
use tesserix_mcp_runtime.Observability.InFlight.{admit_server-Counted}
use tesserix_mcp_runtime.Observability.Recorded.{
  Keeps, Keeps-refl, Keeps-trans, lose-Keeps, add_retry-Keeps, add_limit-Keeps, add_call-Keeps,
  admit_server-Keeps,
}

-- a method that returns; one that raises changes nothing
pub data Step (s after : Observability) : Type 0 where
  dropped : (count : ℕ) → record_dropped count s ≡ ok after → Step s after
  retried : (e : Option Exporter) (tool : String) → record_retry e tool s ≡ ok after → Step s after
  limited :
      (e : Option Exporter) (tool : Option String) (limit : RuntimeLimit)
      → record_limit e tool limit s ≡ ok after
      → Step s after
  called :
      (e : Option Exporter) (operation : RuntimeOperation) (tool : Option String)
      (outcome : RuntimeOutcome) (seconds : Number)
      → record_call e operation tool outcome seconds s ≡ ok after
      → Step s after
  changed :
      (e : Option Exporter) (tool : String) (delta : ℤ) (server_capacity tool_capacity : ℕ)
      → change_in_flight e tool delta server_capacity tool_capacity s ≡ ok after
      → Step s after

pub data Reached : Observability → Type 0 where
  start : Reached init
  step : (s after : Observability) → Reached s → Step s after → Reached after

-- a chain that returns went on after its first part
went_on :
    {A : Type 0}
    → (r : Result A) (f : A → Result Observability) (after : Observability) (P : Type 0)
    → (r >>= f) ≡ ok after
    → ((a : A) → f a ≡ ok after → P)
    → P
went_on (ok a) f after P h k = k a h
went_on (err e) f after P h k = ground (arith, h)

checked :
    (guard : Result (Unit {0})) (r : Result Observability) (after : Observability)
    → (guard >> r) ≡ ok after
    → (P : Observability → Type 0) → (r ≡ ok after → P after)
    → P after
checked guard r after h P k = went_on guard (λ _. r) after (P after) h (λ _. k)

-- the counters, and the capacities that were recorded before
abbrev pub Kept : Observability → Observability → Type 0
Kept s t = Counted t × Keeps s t

returned : (s t after : Observability) → ok t ≡ ok after → Counted t → Keeps s t → Kept s after
returned s t after h c k = subst (Kept s) (ground (arith, h)) (c, k)

add_limit-Counted :
    (e : Option Exporter) (key : RuntimeLimit × String) (s : Observability)
    → Counted s
    → Counted (add_limit e key s)
unfolding add_limit
add_limit-Counted e key s c =
    elim (Bool-cases
      (not (is_some (find same_limit s.limits key)) && leb (8 * 129) (length s.limits))) [
        | inl full ↦ rw full (drop-Counted s c)
        | inr room ↦
            let count = count_of (find same_limit s.limits key) + 1 in
            let next : Observability = record s { limits = store same_limit s.limits key count } in
            rw room (
              export-Counted e next (record {
                gauge = c.gauge;
                few_retries = c.few_retries;
                few_limits =
                    ground (arith, c.few_limits, room, length-store same_limit s.limits key count);
                few_requests = c.few_requests;
                pending_within = c.pending_within;
              }))
      ]

add_call-Counted :
    (e : Option Exporter) (key : SeriesKey) (value : ℕ) (s : Observability)
    → Counted s
    → Counted (add_call e key value s)
unfolding add_call
add_call-Counted e key value s c =
    elim (Bool-cases
      (not (is_some (find same_series s.requests key)) && leb 2048 (length s.requests))) [
        | inl full ↦ rw full (drop-Counted s c)
        | inr room ↦
            let h = observe value (histogram_of (find same_series s.requests key)) in
            let next : Observability = record s {
              requests = store same_series s.requests key h;
              cancellations = add_cancellation key.tool key.outcome s.cancellations;
            } in
            rw room (
              export-Counted e next (record {
                gauge = c.gauge;
                few_retries = c.few_retries;
                few_limits = c.few_limits;
                few_requests =
                    ground (arith, c.few_requests, room, length-store same_series s.requests key h);
                pending_within = c.pending_within;
              }))
      ]

add_retry-Counted :
    (e : Option Exporter) (tool : String) (s : Observability)
    → Counted s
    → Counted (add_retry e tool s)
unfolding add_retry
add_retry-Counted e tool s c =
    elim (Bool-cases (not (is_some (get s.retries tool)) && leb 128 (length s.retries.entries))) [
      | inl full ↦ rw full (drop-Counted s c)
      | inr room ↦
          let count = count_of (get s.retries tool) + 1 in
          let next : Observability = record s { retries = put s.retries tool count } in
          rw room (
            export-Counted e next (record {
              gauge = c.gauge;
              few_retries = ground (arith, c.few_retries, room, length-put s.retries tool count);
              few_limits = c.few_limits;
              few_requests = c.few_requests;
              pending_within = c.pending_within;
            }))
    ]

Step-Kept : (s after : Observability) → Step s after → Counted s → Kept s after
unfolding record_dropped record_retry record_limit record_call change_in_flight
Step-Kept s after (dropped count h) c =
    went_on _ _ after _ h
      (λ _ i. returned s _ after i (lose-Counted count s c) (lose-Keeps count s))
Step-Kept s after (retried e tool h) c =
    went_on _ _ after _ h
      (λ _ i. returned s _ after i (add_retry-Counted e tool s c) (add_retry-Keeps e tool s))
Step-Kept s after (limited e tool limit h) c = went_on _ _ after _ h (λ name i.
    returned s _ after i (add_limit-Counted e (limit, name) s c)
      (add_limit-Keeps e (limit, name) s))
Step-Kept s after (called e operation tool outcome seconds h) c =
    went_on (tool_dimension tool)
      (λ name.
        duration seconds >>= λ value. ok (add_call e (key_of operation name outcome) value s))
      after (Kept s after) h
      (λ name i.
        went_on (duration seconds)
          (λ value. ok (add_call e (key_of operation name outcome) value s)) after (Kept s after) i
          (λ value j.
            returned s _ after j (add_call-Counted e (key_of operation name outcome) value s c)
              (add_call-Keeps e (key_of operation name outcome) value s)))
Step-Kept s after (changed e tool delta sc tc h) c =
    let moving = admit_server e tool delta sc tc s.server_capacity s in
    let few = check (leb 1 sc && leb sc 256 && leb 1 tc && leb tc 128) in
    checked (check (is_dimension (codes tool))) (check (is_unit delta) >> (few >> ok moving)) after
      h (Kept s)
      (λ i. checked (check (is_unit delta)) (few >> ok moving) after i (Kept s) (λ j.
        checked few (ok moving) after j (Kept s) (λ k.
          returned s moving after k (admit_server-Counted e tool delta sc tc _ s c refl)
            (admit_server-Keeps e tool delta sc tc _ s refl))))

reached_lem : (s : Observability) → Reached s → Counted s
reached_lem s start = init-Counted
reached_lem s (step before _ r h) = (Step-Kept before s h (reached_lem before r)).0

-- the history goes on
pub data Later (s : Observability) : Observability → Type 0 where
  now : Later s s
  later : (t after : Observability) → Later s t → Step t after → Later s after

-- In every history of calls of one RuntimeObservability, exporters that fail included: the calls in
-- flight of the server are the sum of those of the tools, neither exceeds the capacity recorded for
-- it, and there are at most 128 tools with a capacity, 128 with a retry, 1032 limit series, 2048 call
-- series, and no more pending drops than drops. A capacity that is recorded at some point of the
-- history is the same at every later one.
pub Reached-Counted : (s t : Observability) → Reached s → Later s t → Counted t × Keeps s t
Reached-Counted s t r now = (reached_lem s r, Keeps-refl s)
Reached-Counted s t r (later between _ l h) =
    let (counted, kept) = Reached-Counted s between r l in
    let (counts, keeps) = Step-Kept between t h counted in
    (counts, Keeps-trans s between t kept keeps)
