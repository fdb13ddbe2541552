-- ===== src/Lifecycle/Order.antt =====
-- The order of the states of a controller.
use tesserix_mcp_runtime.Base.{ℕ, ◌≤◌, ◌≡◌, refl, List, [], ◌∷◌, arith}
use tesserix_mcp_runtime.Contracts.Vocabulary.{LifecycleState, startup, ready, draining, stopped}
use tesserix_mcp_runtime.Lifecycle.{
  Environment, LifecycleController, start, drain, stop, finish_drain, finish_stop,
}

-- the order startup, ready, draining, stopped
unfoldable pub rank : LifecycleState → ℕ
rank startup = 0
rank ready = 1
rank draining = 2
rank stopped = 3

pub data Transition : Type 0 where
  to_start to_drain to_stop : Transition

-- a call of `start`, `drain` or `stop`, whatever it raises
unfoldable pub step : Environment → Transition → LifecycleController → LifecycleController
step env to_start s = (start env s).0
step env to_drain s = (drain env s).0
step env to_stop s = (stop env s).0

unfoldable pub run : Environment → List Transition → LifecycleController → LifecycleController
unfolding step
run env [] s = s
run env (t ∷ ts) s = run env ts (step env t s)

step-rank :
    (env : Environment) (t : Transition) (s : LifecycleController)
    → rank s.state ≤ rank (step env t s).state
unfolding rank step start drain stop finish_drain finish_stop
step-rank env to_start s = ground arith
step-rank env to_drain s = ground arith
step-rank env to_stop s = ground arith

-- Whatever the hooks do, no sequence of calls takes a controller back to an earlier state.
pub run-rank :
    (env : Environment) (ts : List Transition) (s : LifecycleController)
    → rank s.state ≤ rank (run env ts s).state
unfolding run
run-rank env [] s = omega arith
run-rank env (t ∷ ts) s = omega (arith, step-rank env t s, run-rank env ts (step env t s))

step-stopped :
    (env : Environment) (t : Transition) (s : LifecycleController)
    → s.state ≡ stopped
    → step env t s ≡ s
unfolding step start drain stop
step-stopped env to_start s h = ground arith
step-stopped env to_drain s h = ground arith
step-stopped env to_stop s h = ground arith

-- A stopped controller stays as it is under any calls: no hook is called again, nothing restarts.
pub run-stopped :
    (env : Environment) (ts : List Transition) (s : LifecycleController)
    → s.state ≡ stopped
    → run env ts s ≡ s
unfolding run
run-stopped env [] s h = refl
run-stopped env (t ∷ ts) s h = rw (step-stopped env t s h) (run-stopped env ts s h)
