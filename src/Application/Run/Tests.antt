-- ===== src/Application/Run/Tests.antt =====
-- A run that ends well, and the theorems on it.
use tesserix_mcp_runtime.Base.{true, none, List, [], ◌∷◌, ◌≡◌, refl}
use tesserix_mcp_runtime.Contracts.Failure.{ok}
use tesserix_mcp_runtime.Lifecycle.{Component, Environment, returns}
use tesserix_mcp_runtime.Lifecycle as Lifecycle
use tesserix_mcp_runtime.Application.Run.{
  Surroundings, ApplicationRunResult, run, signal_phase, drain_phase, stop_phase, before_deadline,
  after_phase, signal_outcome, run_result,
}
use tesserix_mcp_runtime.Application.Run.Phases.{AllPhases, run-AllPhases}
use tesserix_mcp_runtime.Application.Run.Stopped.{Finished, run-Finished}

abbrev calm : Environment
calm log call = returns

abbrev surroundings : Surroundings
surroundings = record {
  hooks = calm;
  signal = ok true;
  drained_in_time = true;
  stopped_in_time = true;
}

abbrev components : List Component
components = record { id = 0; name = "store" } ∷ record { id = 1; name = "server" } ∷ []

abbrev clean_exit : ApplicationRunResult
clean_exit = record { exit_code = 0; diagnostic = none }

ran : (run surroundings (Lifecycle.init components)).1 ≡ ok clean_exit
unfolding run Lifecycle.init Lifecycle.start Lifecycle.start_each signal_phase signal_outcome
    after_phase drain_phase before_deadline Lifecycle.drain Lifecycle.sweep Lifecycle.finish_drain
    stop_phase Lifecycle.stop Lifecycle.finish_stop run_result
ran = refl

run-AllPhases_example : AllPhases surroundings (Lifecycle.init components)
run-AllPhases_example = run-AllPhases surroundings (Lifecycle.init components) clean_exit ran refl

run-Finished_example :
    Finished surroundings (λ log call e. cc e) (run surroundings (Lifecycle.init components))
run-Finished_example = run-Finished surroundings (λ log call e. cc e) components (λ e h. cc h)
