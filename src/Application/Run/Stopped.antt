-- ===== src/Application/Run/Stopped.antt =====
-- The controller at the end of a run.
use tesserix_mcp_runtime.Base.{
  ℕ, ◌+◌, Bool, true, false, String, Option, none, some, List, [], ◌∷◌, ◌++◌, map, reverse, ◌≡◌,
  ◌≢◌, refl, inl, inr, arith, length,
}
use tesserix_mcp_runtime.Contracts.Vocabulary.{LifecycleState, startup, ready, draining, stopped}
use tesserix_mcp_runtime.Contracts.Failure.{Failure, Result, ok, err, is_exception}
use tesserix_mcp_runtime.Lifecycle.{
  Component, LifecycleController, Outcome, done, fails, report, init, start, drain, drains, stops,
  starts, lifecycle_failure,
}
use tesserix_mcp_runtime.Lifecycle.Sweep.{IsQuiet, failing, first_name}
use tesserix_mcp_runtime.Lifecycle.Stop.{report_of, stop_Quiet, drain_Quiet}
use tesserix_mcp_runtime.Lifecycle.Start.{start_Quiet}
use tesserix_mcp_runtime.Application.Run.{
  ApplicationDiagnostic, ApplicationRunResult, ApplicationDiagnosticCode, Surroundings,
  before_deadline, signal_outcome, after_phase, run_result, diagnosed, stop_phase, drain_phase,
  signal_phase, run,
}

-- a phase that `except Exception` covers
abbrev IsOrdinary : Outcome → Type 0
IsOrdinary o = (e : Failure) → o ≡ fails e → is_exception e.kind ≡ true

after_phase-IsOrdinary :
    (code : ApplicationDiagnosticCode) (phase : LifecycleState) (o : Outcome)
    (earlier : Option ApplicationDiagnostic)
    → IsOrdinary o
    → (d : Option ApplicationDiagnostic) × (after_phase code phase o earlier ≡ ok d)
unfolding after_phase
after_phase-IsOrdinary code phase done earlier h = (earlier, refl)
after_phase-IsOrdinary code phase (fails e) earlier h =
    ((elim earlier [ none ↦ some (diagnosed code phase e) | some d ↦ some d ]), rw (h e refl) refl)

before_deadline-IsOrdinary :
    (b : Bool) (o : Outcome) → IsOrdinary o → IsOrdinary (before_deadline b o)
unfolding before_deadline
before_deadline-IsOrdinary b o h e k = ground (arith, h e)

report-IsOrdinary :
    (phase : LifecycleState) (failed : Option String) (n : ℕ) → IsOrdinary (report phase failed n)
report-IsOrdinary phase none n e h = ground arith
report-IsOrdinary phase (some name) n e h = ground arith

signal_outcome-IsOrdinary :
    (s : Result Bool)
    → ((e : Failure) → s ≡ err e → is_exception e.kind ≡ true)
    → IsOrdinary (signal_outcome s)
unfolding signal_outcome
signal_outcome-IsOrdinary (ok true) h e k = ground arith
signal_outcome-IsOrdinary (ok false) h e k = ground arith
signal_outcome-IsOrdinary (err f) h e k = ground (arith, h f refl)

module _ (env : Surroundings) (quiet : IsQuiet env.hooks) where
  -- the controller is stopped and the run has a result
  abbrev pub Finished : LifecycleController × Result ApplicationRunResult → Type 0
  Finished x = (x.0.state ≡ stopped) × ((r : ApplicationRunResult) × (x.1 ≡ ok r))

  stop_phase-Finished :
      (s : LifecycleController) (earlier : Option ApplicationDiagnostic)
      → s.state ≢ stopped
      → Finished (stop_phase env s earlier)
  unfolding stop_phase
  stop_phase-Finished s earlier h =
      let failed = failing env.hooks stops (reverse s.started) s.calls in
      let (at_end, outcome) = stop_Quiet env.hooks s quiet h in
      let (d, goes_on) =
        after_phase-IsOrdinary ApplicationDiagnosticCode.stop_failed stopped
          (before_deadline env.stopped_in_time (report_of stopped failed)) earlier
          (before_deadline-IsOrdinary env.stopped_in_time (report_of stopped failed)
            (report-IsOrdinary stopped (first_name failed) (length failed))) in
      (ground (arith, at_end), (run_result d, ground (arith, outcome, goes_on)))

  drain_phase-Finished :
      (s : LifecycleController) (earlier : Option ApplicationDiagnostic)
      → s.state ≡ ready
      → Finished (drain_phase env s earlier)
  unfolding drain_phase
  drain_phase-Finished s earlier h =
      let failed = failing env.hooks drains (reverse s.started) s.calls in
      let (at_end, outcome) = drain_Quiet env.hooks s quiet h in
      let (d, goes_on) =
        after_phase-IsOrdinary ApplicationDiagnosticCode.drain_failed draining
          (before_deadline env.drained_in_time (report_of draining failed)) earlier
          (before_deadline-IsOrdinary env.drained_in_time (report_of draining failed)
            (report-IsOrdinary draining (first_name failed) (length failed))) in
      let stops_then : drain_phase env s earlier ≡ stop_phase env (drain env.hooks s).0 d =
        ground (arith, outcome, goes_on) in
      rw stops_then (stop_phase-Finished (drain env.hooks s).0 d (ground (arith, at_end)))

  signal_phase-Finished :
      (s : LifecycleController)
      → ((e : Failure) → env.signal ≡ err e → is_exception e.kind ≡ true)
      → s.state ≡ ready
      → Finished (signal_phase env s)
  unfolding signal_phase
  signal_phase-Finished s ordinary h =
      let (d, goes_on) =
        after_phase-IsOrdinary ApplicationDiagnosticCode.signal_failed ready
          (signal_outcome env.signal) none (signal_outcome-IsOrdinary env.signal ordinary) in
      rw (goes_on, signal_phase) (drain_phase-Finished s d h)

  failed_start :
      (s : LifecycleController) (e : Failure)
      → (start env.hooks s).1 ≡ fails e
      → is_exception e.kind ≡ true
      → (r : ApplicationRunResult) × ((run env s).1 ≡ ok r)
  unfolding run
  failed_start s e h ordinary = (
    run_result (some (diagnosed ApplicationDiagnosticCode.startup_failed startup e)),
    ground (arith, h, ordinary),
  )

  -- When no hook is cancelled and the wait for a signal ends or raises an Exception, a run from the
  -- beginning gives a result and leaves the controller stopped, whatever fails on the way: a failing
  -- start is rolled back, and a failing signal or drain does not keep the components from being
  -- stopped.
  pub run-Finished :
      (components : List Component)
      → ((e : Failure) → env.signal ≡ err e → is_exception e.kind ≡ true)
      → Finished (run env (init components))
  unfolding run
  run-Finished components ordinary = elim (start_Quiet env.hooks components quiet) [
    | inl (_, at_ready, started) ↦
        let goes_on : run env (init components)
            ≡ signal_phase env (start env.hooks (init components)).0 =
          ground (arith, started) in
        rw goes_on (
          signal_phase-Finished (start env.hooks (init components)).0 ordinary
            (ground (arith, at_ready)))
    | inr (before, c, after, e, (_, _, rolled_back, failed)) ↦ (
      ground (arith, rolled_back, failed),
      failed_start (init components)
          (lifecycle_failure startup c.name (
            1
            + length (
                failing env.hooks stops (c ∷ reverse ((init components).started ++ before))
                  ((init components).calls ++ map starts (before ++ c ∷ [])))))
          failed refl,
    )
  ]
