-- ===== src/Lifecycle/Tests.antt =====
-- A controller of three components, the second of which fails, and the theorems on such runs.
use tesserix_mcp_runtime.Base.{
  ◌≤◌, ◌≡◌, ◌≢◌, refl, List, [], ◌∷◌, ◌++◌, map, reverse, ◌⊎◌, arith, if◌then◌else◌, ◌==◌,
}
use tesserix_mcp_runtime.Contracts.Vocabulary.{startup, ready, draining, stopped}
use tesserix_mcp_runtime.Lifecycle.{
  Component, returns, raises, starts, drains, stops, Environment, LifecycleController, done, fails,
  lifecycle_failure, init, start, drain, stop, sweep, start_each, abort,
}
use tesserix_mcp_runtime.Lifecycle.Sweep.{IsQuiet, failing}
use tesserix_mcp_runtime.Lifecycle.Start.{AllStarted, RolledBack, start_Quiet, full_life}
use tesserix_mcp_runtime.Lifecycle.Stop.{report_of, stop_Quiet, drain_Quiet}
use tesserix_mcp_runtime.Lifecycle.Order.{
  rank, run, to_start, to_drain, to_stop, run-rank, run-stopped,
}

abbrev cache : Component
cache = record { id = 0; name = "cache" }

abbrev store : Component
store = record { id = 1; name = "store" }

abbrev server : Component
server = record { id = 2; name = "server" }

abbrev all_three : List Component
all_three = cache ∷ store ∷ server ∷ []

-- every hook returns
abbrev calm : Environment
calm log call = returns

-- the store does not start, and the cache does not stop
abbrev faulty : Environment
faulty log (starts c) = if c.id == 1 then raises else returns
faulty log (stops c) = if c.id == 0 then raises else returns
faulty log (drains c) = returns

calm-IsQuiet : IsQuiet calm
calm-IsQuiet log call = λ e. cc e

faulty-IsQuiet : IsQuiet faulty
faulty-IsQuiet log (starts c) = ground arith
faulty-IsQuiet log (stops c) = ground arith
faulty-IsQuiet log (drains c) = ground arith

abbrev running : LifecycleController
running = (start calm (init all_three)).0

running_started : running.started ≡ all_three
unfolding start init start_each
running_started = refl

running_ready : running.state ≡ ready
unfolding start init start_each
running_ready = refl

calm_done : (start calm (init all_three)).1 ≡ done
unfolding start init start_each
calm_done = refl

faulty_report : (start faulty (init all_three)).1 ≡ fails (lifecycle_failure startup "store" 2)
unfolding start init start_each abort sweep
faulty_report = refl

start_Quiet_example :
    AllStarted faulty (init all_three) all_three (start faulty (init all_three))
    ⊎ ((before : List Component) × (c : Component) × (after : List Component) × (all_three
          ≡ before ++ c ∷ after)
        × RolledBack faulty (init all_three) before c (start faulty (init all_three)))
start_Quiet_example = start_Quiet faulty all_three faulty-IsQuiet

not_stopped : running.state ≢ stopped
not_stopped e = cc (running_ready, e)

stop_Quiet_example :
    ((stop faulty running).0 ≡ record running {
      state = stopped;
      calls = running.calls ++ map stops (reverse running.started);
    })
    × ((stop faulty running).1
        ≡ report_of stopped (failing faulty stops (reverse running.started) running.calls))
stop_Quiet_example = stop_Quiet faulty running faulty-IsQuiet not_stopped

drain_Quiet_example :
    ((drain faulty running).0 ≡ record running {
      state = draining;
      calls = running.calls ++ map drains (reverse running.started);
    })
    × ((drain faulty running).1
        ≡ report_of draining (failing faulty drains (reverse running.started) running.calls))
drain_Quiet_example = drain_Quiet faulty running faulty-IsQuiet running_ready

full_life_example :
    let ready_s = (start calm (init all_three)).0 in
    let stopped_s = (stop calm (drain calm ready_s).0).0 in
    (stopped_s.state ≡ stopped)
    × (stopped_s.calls
        ≡ (map starts all_three ++ map drains (reverse all_three)) ++ map stops (reverse all_three))
full_life_example = full_life calm all_three calm-IsQuiet calm_done

run-rank_example :
    rank (init all_three).state
    ≤ rank (run faulty (to_drain ∷ to_start ∷ to_stop ∷ []) (init all_three)).state
run-rank_example = run-rank faulty (to_drain ∷ to_start ∷ to_stop ∷ []) (init all_three)

abbrev ended : LifecycleController
ended = record (init all_three) { state = stopped }

run-stopped_example : run calm (to_start ∷ to_stop ∷ to_start ∷ []) ended ≡ ended
run-stopped_example = run-stopped calm (to_start ∷ to_stop ∷ to_start ∷ []) ended refl
