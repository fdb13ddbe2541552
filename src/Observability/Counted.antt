-- ===== src/Observability/Counted.antt =====
-- What the counters of RuntimeObservability satisfy.
use tesserix_mcp_runtime.Base.{
  ℕ, suc, ◌+◌, ◌≤◌, Bool, true, false, not, ◌&&◌, String, Option, none, some, List, [], ◌∷◌, leb,
  ◌==◌, length, is_some, if◌then◌else◌, ◌≡◌, ◌*◌, refl, subst, sym, arith,
}
use tesserix_mcp_runtime.Base.Dict.{Dict, empty, get, put, insert, lookup}
use tesserix_mcp_runtime.Observability.{
  Observability, init, Exporter, drop, lose, flush, export, count_of,
}

-- the sum of the counts
abbrev pub total : List (String × ℕ) → ℕ
total [] = 0
total (entry ∷ rest) = entry.1 + total rest

total-insert :
    (m : List (String × ℕ)) (k : String) (n : ℕ)
    → total (insert m k n) + count_of (lookup m k) ≡ total m + n
unfolding insert lookup
total-insert [] k n = omega arith
total-insert (entry ∷ rest) k n = ground (arith, total-insert rest k n)

pub total-put :
    (d : Dict ℕ) (k : String) (n : ℕ)
    → total (put d k n).entries + count_of (get d k) ≡ total d.entries + n
unfolding put get
total-put d k n = total-insert d.entries k n

length-insert :
    (m : List (String × ℕ)) (k : String) (n : ℕ)
    → length (insert m k n) ≡ (if is_some (lookup m k) then length m else suc (length m))
unfolding insert lookup
length-insert [] k n = omega arith
length-insert (entry ∷ rest) k n = ground (arith, length-insert rest k n)

pub length-put :
    (d : Dict ℕ) (k : String) (n : ℕ)
    → length (put d k n).entries
      ≡ (if is_some (get d k) then length d.entries else suc (length d.entries))
unfolding put get
length-put d k n = length-insert d.entries k n

-- no more calls than the capacity; none before there is one
abbrev pub within : Option ℕ → ℕ → Bool
within none n = n == 0
within (some capacity) n = leb n capacity

-- The calls in flight: the server's count is the sum of the tools', and none exceeds its capacity.
pub record Gauge (server : ℕ) (capacity : Option ℕ) (in_flight capacities : Dict ℕ) : Type 0 where
  pub sum : total in_flight.entries ≡ server
  pub server_within : within capacity server ≡ true
  pub tool_within : (k : String) → within (get capacities k) (count_of (get in_flight k)) ≡ true
  pub few_tools : length capacities.entries ≤ 128

pub record Counted (s : Observability) : Type 0 where
  pub gauge : Gauge s.server_in_flight s.server_capacity s.tool_in_flight s.tool_capacity
  pub few_retries : length s.retries.entries ≤ 128
  pub few_limits : length s.limits ≤ 8 * 129
  pub few_requests : length s.requests ≤ 2048
  pub pending_within : s.pending_drops ≤ s.dropped_events

pub init-Counted : Counted init
unfolding init empty get lookup
init-Counted = record {
  gauge = record {
    sum = refl;
    server_within = refl;
    tool_within = λ k. refl;
    few_tools = omega arith;
  };
  few_retries = omega arith;
  few_limits = omega arith;
  few_requests = omega arith;
  pending_within = omega arith;
}

-- a state with the same series, and the drops that there are
pub with_drops :
    (s t : Observability)
    → Counted s
    → Gauge t.server_in_flight t.server_capacity t.tool_in_flight t.tool_capacity
    → (t.retries ≡ s.retries) × (t.limits ≡ s.limits) × (t.requests ≡ s.requests)
    → t.pending_drops ≤ t.dropped_events
    → Counted t
with_drops s t c g (retries, limits, requests) pending = record {
  gauge = g;
  few_retries = subst (λ d. length d.entries ≤ 128) (sym retries) c.few_retries;
  few_limits = subst (λ m. length m ≤ 8 * 129) (sym limits) c.few_limits;
  few_requests = subst (λ m. length m ≤ 2048) (sym requests) c.few_requests;
  pending_within = pending;
}

pub drop-Counted : (s : Observability) → Counted s → Counted (drop s)
unfolding drop
drop-Counted s c =
    with_drops s (drop s) c c.gauge (refl, refl, refl) (omega (arith, c.pending_within))

pub lose-Counted : (n : ℕ) (s : Observability) → Counted s → Counted (lose n s)
unfolding lose
lose-Counted n s c =
    with_drops s (lose n s) c c.gauge (refl, refl, refl) (omega (arith, c.pending_within))

flush-Counted : (b : Bool) (s : Observability) → Counted s → Counted (flush b s)
unfolding flush
flush-Counted true s c = with_drops s (flush true s) c c.gauge (refl, refl, refl) (omega arith)
flush-Counted false s c = c

pub export-Counted : (e : Option Exporter) (s : Observability) → Counted s → Counted (export e s)
unfolding export
export-Counted none s c = c
export-Counted (some e) s c =
    let flushed = flush-Counted (e.takes_drops && not (s.pending_drops == 0)) s c in
    taken e.takes_observation (flush (e.takes_drops && not (s.pending_drops == 0)) s) flushed
  where
    taken : (b : Bool) (t : Observability) → Counted t → Counted (if b then t else lose 1 t)
    taken true t k = k
    taken false t k = lose-Counted 1 t k
