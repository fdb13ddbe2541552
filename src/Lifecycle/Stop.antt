-- ===== src/Lifecycle/Stop.antt =====
-- The calls and the report of `_drain` and `_stop`.
use tesserix_mcp_runtime.Base.{none, ◌≡◌, ◌≢◌, List, ◌++◌, map, reverse, arith, length}
use tesserix_mcp_runtime.Contracts.Vocabulary.{LifecycleState, ready, draining, stopped}
use tesserix_mcp_runtime.Lifecycle.{
  Component, stops, drains, Environment, LifecycleController, Outcome, report, drain, stop,
  finish_drain, finish_stop,
}
use tesserix_mcp_runtime.Lifecycle.Sweep.{IsQuiet, failing, first_name, sweep-Quiet}

-- what a transition reports when the hooks of these components, called in this order, may raise
abbrev pub report_of : LifecycleState → List Component → Outcome
report_of phase cs = report phase (first_name cs) (length cs)

-- When no hook call is cancelled, stopping a controller that is not stopped calls `stop` on every
-- started component in reverse order, also past failures, ends stopped, and raises exactly when a
-- hook raised, with the first failing component and the number of failures.
pub stop_Quiet :
    (env : Environment) (s : LifecycleController)
    → IsQuiet env
    → s.state ≢ stopped
    → ((stop env s).0
        ≡ record s { state = stopped; calls = s.calls ++ map stops (reverse s.started) })
      × ((stop env s).1 ≡ report_of stopped (failing env stops (reverse s.started) s.calls))
unfolding stop finish_stop
stop_Quiet env s q h = ground (arith, sweep-Quiet env stops (reverse s.started) s.calls none 0 q)

-- When no hook call is cancelled, draining a ready controller calls `drain` on every started component
-- in reverse order, also past failures, ends draining, and raises exactly when a hook raised, with the
-- first failing component and the number of failures.
pub drain_Quiet :
    (env : Environment) (s : LifecycleController)
    → IsQuiet env
    → s.state ≡ ready
    → ((drain env s).0
        ≡ record s { state = draining; calls = s.calls ++ map drains (reverse s.started) })
      × ((drain env s).1 ≡ report_of draining (failing env drains (reverse s.started) s.calls))
unfolding drain finish_drain
drain_Quiet env s q h = ground (arith, sweep-Quiet env drains (reverse s.started) s.calls none 0 q)
