-- ===== src/Application/Run.antt =====
-- `Application.run`: start, wait for a signal, drain, stop, and one diagnostic for the first phase
-- that fails. A clock reading is finite, so the deadlines pass `validate_deadline`.
pub mod Phases
pub mod Stopped
mod Tests
use tesserix_mcp_runtime.Base.{
  ℕ, Bool, true, false, String, Option, none, some, List, if◌then◌else◌,
}
use tesserix_mcp_runtime.Contracts.Vocabulary.{LifecycleState, startup, ready, draining, stopped}
use tesserix_mcp_runtime.Contracts.Failure.{Kind, Failure, FieldPath, Result, ok, err, is_exception}
use tesserix_mcp_runtime.Errors.{audit_name}
use tesserix_mcp_runtime.Lifecycle.{
  Environment, LifecycleController, Outcome, done, fails, start, drain, stop,
}

pub data ApplicationDiagnosticCode : Type 0 where
  startup_failed signal_failed drain_failed stop_failed : ApplicationDiagnosticCode

pub record ApplicationDiagnostic : Type 0 where
  pub code : ApplicationDiagnosticCode
  pub phase : LifecycleState
  pub exception_type : String

pub record ApplicationRunResult : Type 0 where
  pub exit_code : ℕ
  pub diagnostic : Option ApplicationDiagnostic

-- `ApplicationDiagnostic.from_exception`
unfoldable pub diagnosed :
    ApplicationDiagnosticCode → LifecycleState → Failure → ApplicationDiagnostic
diagnosed code phase error = record {
  code = code;
  phase = phase;
  exception_type = audit_name error.type_name;
}

abbrev pub deadline_failure : Failure
deadline_failure = record { kind = Kind.timeout; type_name = "ApplicationDeadlineExceeded" }

abbrev pub signal_failure : Failure
signal_failure = record {
  kind = Kind.configuration "invalid_signal" (FieldPath.field "signals.wait");
  type_name = "ApplicationConfigurationError";
}

-- `_run_before_deadline`: whether the work is done when the wait returns, and how the work ends, after
-- a cancellation if it is not
unfoldable pub before_deadline : Bool → Outcome → Outcome
before_deadline in_time outcome = if in_time then outcome else elim outcome [
  | done ↦ fails deadline_failure
  | fails e ↦ elim e.kind [ Kind.cancelled ↦ fails deadline_failure | _ ↦ fails e ]
]

-- what `signals.wait()` does: it returns a ShutdownSignal or another object, or raises
unfoldable pub signal_outcome : Result Bool → Outcome
signal_outcome (ok true) = done
signal_outcome (ok false) = fails signal_failure
signal_outcome (err e) = fails e

-- A phase of `run` after the start, where an earlier diagnostic is kept: the diagnostic, or what
-- passes `except Exception`.
unfoldable pub after_phase :
    ApplicationDiagnosticCode
    → LifecycleState
    → Outcome
    → Option ApplicationDiagnostic
    → Result (Option ApplicationDiagnostic)
after_phase code phase outcome earlier = elim outcome [
  | done ↦ ok earlier
  | fails e ↦
      if is_exception e.kind
      then ok (elim earlier [ none ↦ some (diagnosed code phase e) | some d ↦ some d ])
      else err e
]

unfoldable pub run_result : Option ApplicationDiagnostic → ApplicationRunResult
run_result none = record { exit_code = 0; diagnostic = none }
run_result (some d) = record { exit_code = 1; diagnostic = some d }

-- the surroundings of one run
pub record Surroundings : Type 0 where
  pub hooks : Environment
  pub signal : Result Bool
  pub drained_in_time : Bool
  pub stopped_in_time : Bool

module _ (env : Surroundings) where
  unfoldable pub stop_phase :
      LifecycleController
      → Option ApplicationDiagnostic
      → LifecycleController × Result ApplicationRunResult
  stop_phase s earlier =
      let (s', outcome) = stop env.hooks s in
      (
        s',
        elim (after_phase ApplicationDiagnosticCode.stop_failed stopped
            (before_deadline env.stopped_in_time outcome) earlier) [
              | ok last ↦ ok (run_result last)
              | err e ↦ err e
            ],
      )

  unfoldable pub drain_phase :
      LifecycleController
      → Option ApplicationDiagnostic
      → LifecycleController × Result ApplicationRunResult
  drain_phase s earlier =
      let (s', outcome) = drain env.hooks s in
      elim (after_phase ApplicationDiagnosticCode.drain_failed draining
        (before_deadline env.drained_in_time outcome) earlier) [
          | ok next ↦ stop_phase s' next
          | err e ↦ (s', err e)
        ]

  unfoldable pub signal_phase :
      LifecycleController → LifecycleController × Result ApplicationRunResult
  signal_phase s =
      elim (after_phase ApplicationDiagnosticCode.signal_failed ready (signal_outcome env.signal)
        none) [ ok next ↦ drain_phase s next | err e ↦ (s, err e) ]

  -- `run`
  unfoldable pub run : LifecycleController → LifecycleController × Result ApplicationRunResult
  run s =
      let (s', outcome) = start env.hooks s in
      elim outcome [
        | done ↦ signal_phase s'
        | fails e ↦ (
          s',
          if is_exception e.kind
              then ok
                  (run_result (some (diagnosed ApplicationDiagnosticCode.startup_failed startup e)))
              else err e,
        )
      ]
