-- ===== src/Application/Run/Phases.antt =====
-- The exit code of a run, and its phases.
use tesserix_mcp_runtime.Base.{
  Bool, true, Option, none, some, List, ◌≡◌, ◌≢◌, refl, ◌⊎◌, inl, inr, arith,
}
use tesserix_mcp_runtime.Contracts.Vocabulary.{LifecycleState, startup, ready, draining, stopped}
use tesserix_mcp_runtime.Contracts.Failure.{Failure, ok, Result-cases}
use tesserix_mcp_runtime.Lifecycle.{
  Component, LifecycleController, Outcome, done, fails, start, drain, stop,
}
use tesserix_mcp_runtime.Lifecycle.Sweep.{IsQuiet}
use tesserix_mcp_runtime.Lifecycle.Stop.{stop_Quiet}
use tesserix_mcp_runtime.Application.Run.{
  ApplicationDiagnostic, ApplicationRunResult, ApplicationDiagnosticCode, Surroundings,
  before_deadline, signal_outcome, after_phase, run_result, diagnosed, stop_phase, drain_phase,
  signal_phase, run,
}

Outcome-cases : (o : Outcome) → (o ≡ done) ⊎ ((e : Failure) × (o ≡ fails e))
Outcome-cases done = inl refl
Outcome-cases (fails e) = inr (e, refl)

before_deadline-done :
    (b : Bool) (o : Outcome) → before_deadline b o ≡ done → (b ≡ true) × (o ≡ done)
unfolding before_deadline
before_deadline-done b o h = (ground arith, ground arith)

after_phase-none :
    (code : ApplicationDiagnosticCode) (phase : LifecycleState) (o : Outcome)
    (earlier : Option ApplicationDiagnostic)
    → after_phase code phase o earlier ≡ ok none
    → (o ≡ done) × (earlier ≡ none)
unfolding after_phase
after_phase-none code phase o earlier h = (ground arith, ground arith)

run_result-zero : (d : Option ApplicationDiagnostic) → (run_result d).exit_code ≡ 0 → d ≡ none
unfolding run_result
run_result-zero none h = refl
run_result-zero (some d) h = ground arith

module _ (env : Surroundings) where
  stop_phase-zero :
      (s : LifecycleController) (earlier : Option ApplicationDiagnostic) (r : ApplicationRunResult)
      → (stop_phase env s earlier).1 ≡ ok r
      → r.exit_code ≡ 0
      → (earlier ≡ none) × ((stop env.hooks s).1 ≡ done) × (env.stopped_in_time ≡ true)
  unfolding stop_phase
  stop_phase-zero s earlier r h zero =
      let outcome = before_deadline env.stopped_in_time (stop env.hooks s).1 in
      elim (Result-cases
        (after_phase ApplicationDiagnosticCode.stop_failed stopped outcome earlier)) [
          | inr (e, k) ↦ absurd (ground (arith, k))
          | inl (last, k) ↦
              let none_last = run_result-zero last (ground (arith, k)) in
              let (quiet, clean) =
                after_phase-none ApplicationDiagnosticCode.stop_failed stopped outcome earlier
                  (ground (arith, k, none_last)) in
              let (in_time, ended) =
                before_deadline-done env.stopped_in_time (stop env.hooks s).1 quiet in
              (clean, ended, in_time)
        ]

  drain_phase-zero :
      (s : LifecycleController) (earlier : Option ApplicationDiagnostic) (r : ApplicationRunResult)
      → (drain_phase env s earlier).1 ≡ ok r
      → r.exit_code ≡ 0
      → (earlier ≡ none)
        × ((drain env.hooks s).1 ≡ done)
        × (env.drained_in_time ≡ true)
        × ((stop env.hooks (drain env.hooks s).0).1 ≡ done)
        × (env.stopped_in_time ≡ true)
  unfolding drain_phase
  drain_phase-zero s earlier r h zero =
      let outcome = before_deadline env.drained_in_time (drain env.hooks s).1 in
      elim (Result-cases
        (after_phase ApplicationDiagnosticCode.drain_failed draining outcome earlier)) [
          | inr (e, k) ↦ absurd (ground (arith, k))
          | inl (next, k) ↦
              let (none_next, ended, stop_in_time) =
                stop_phase-zero (drain env.hooks s).0 next r (ground (arith, k)) zero in
              let (quiet, clean) =
                after_phase-none ApplicationDiagnosticCode.drain_failed draining outcome earlier
                  (ground (arith, k, none_next)) in
              let (in_time, drained) =
                before_deadline-done env.drained_in_time (drain env.hooks s).1 quiet in
              (clean, drained, in_time, ended, stop_in_time)
        ]

module _ (env : Surroundings) (s : LifecycleController) where
  abbrev at_start : LifecycleController
  at_start = (start env.hooks s).0

  abbrev at_drain : LifecycleController
  at_drain = (drain env.hooks at_start).0

  -- every phase of a run succeeded
  pub record AllPhases : Type 0 where
    pub started : (start env.hooks s).1 ≡ done
    pub signalled : signal_outcome env.signal ≡ done
    pub drained : (drain env.hooks at_start).1 ≡ done
    pub in_time : env.drained_in_time ≡ true
    pub ended : (stop env.hooks at_drain).1 ≡ done
    pub stop_in_time : env.stopped_in_time ≡ true

  signal_phase-zero :
      (r : ApplicationRunResult)
      → (start env.hooks s).1 ≡ done
      → (signal_phase env at_start).1 ≡ ok r
      → r.exit_code ≡ 0
      → AllPhases
  unfolding signal_phase
  signal_phase-zero r started h zero =
      elim (Result-cases (
        after_phase ApplicationDiagnosticCode.signal_failed ready (signal_outcome env.signal)
          none)) [
            | inr (e, k) ↦ absurd (ground (arith, k))
            | inl (next, k) ↦
                let (none_next, drained, in_time, ended, stop_in_time) =
                  drain_phase-zero env at_start next r (ground (arith, k)) zero in
                let (signalled, _) =
                  after_phase-none ApplicationDiagnosticCode.signal_failed ready
                    (signal_outcome env.signal) none (ground (arith, k, none_next)) in
                record {
                  started = started;
                  signalled = signalled;
                  drained = drained;
                  in_time = in_time;
                  ended = ended;
                  stop_in_time = stop_in_time;
                }
          ]

  -- A run exits with 0 only if it started, got a signal, drained and stopped, each without a failure
  -- and in time.
  pub run-AllPhases :
      (r : ApplicationRunResult) → (run env s).1 ≡ ok r → r.exit_code ≡ 0 → AllPhases
  unfolding run
  run-AllPhases r h zero = elim (Outcome-cases (start env.hooks s).1) [
    | inl e ↦ signal_phase-zero r e (ground (arith, e)) zero
    | inr (f, e) ↦ absurd (
        ground (
          arith,
          e,
          run_result-zero (some (diagnosed ApplicationDiagnosticCode.startup_failed startup f)),
        ))
  ]

module _ (env : Surroundings) (components : List Component) (quiet : IsQuiet env.hooks) where
  stopped_after :
      (s : LifecycleController) (earlier : Option ApplicationDiagnostic)
      → s.state ≢ stopped
      → (stop_phase env s earlier).0.state ≡ stopped
  unfolding stop_phase
  stopped_after s earlier h = ground (arith, stop_Quiet env.hooks s quiet h)
