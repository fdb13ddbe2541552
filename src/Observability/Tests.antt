-- ===== src/Observability/Tests.antt =====
-- The theorems on concrete histories, and tests of the counters.
use tesserix_mcp_runtime.Base.{true, false, some, [], ◌∷◌, pos, negsuc, ◌≡◌, refl}
use tesserix_mcp_runtime.Base.Dict.{get, empty, put}
use tesserix_mcp_runtime.Contracts.Failure.{Result, ok}
use tesserix_mcp_runtime.Observability.{
  is_dimension, Observability, init, Exporter, export, flush, lose, drop,
}
use tesserix_mcp_runtime.Observability.Durations.{observe_buckets}
use tesserix_mcp_runtime.Observability.Capacity.{
  change_in_flight, admit_server, admit_tool, move_in_flight, settle, moved,
}
use tesserix_mcp_runtime.Observability.Counted.{Counted}
use tesserix_mcp_runtime.Observability.Histories.{
  Reached, start, step, changed, Later, now, later, Reached-Counted,
}
use tesserix_mcp_runtime.Observability.Recorded.{Keeps}

-- an exporter that takes everything, and one that fails
abbrev willing : Exporter
willing = record { takes_drops = true; takes_observation = true }

abbrev broken : Exporter
broken = record { takes_drops = false; takes_observation = false }

or_init : Result Observability → Observability
or_init r = elim r [ ok s ↦ s | _ ↦ init ]

-- a call starts, ends, and ends once more, which is not recorded
abbrev one : Observability
one = or_init (change_in_flight (some willing) "pay" (pos 1) 2 1 init)

abbrev two : Observability
two = or_init (change_in_flight (some broken) "pay" (negsuc 0) 2 1 one)

abbrev three : Observability
three = or_init (change_in_flight (some willing) "pay" (negsuc 0) 2 1 two)

reached_one : Reached one
unfolding or_init change_in_flight is_dimension
reached_one = step init one start (changed (some willing) "pay" (pos 1) 2 1 refl)

one_to_three : Later one three
unfolding or_init change_in_flight is_dimension
one_to_three =
    later two three (later one two now (changed (some broken) "pay" (negsuc 0) 2 1 refl))
      (changed (some willing) "pay" (negsuc 0) 2 1 refl)

drops_of_three : three.dropped_events ≡ 2
unfolding or_init change_in_flight is_dimension admit_server init admit_tool get empty
    move_in_flight settle moved put export flush lose drop
drops_of_three = refl

Reached-Counted_example : Counted three × Keeps one three
Reached-Counted_example = Reached-Counted one three reached_one one_to_three

-- a duration counts in each bucket that it does not exceed
second_counted : observe_buckets 3 (2 ∷ 3 ∷ []) (5 ∷ 5 ∷ []) ≡ 5 ∷ 6 ∷ []
unfolding observe_buckets
second_counted = refl
