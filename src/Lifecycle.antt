-- ===== src/Lifecycle.antt =====
-- src/tesserix_mcp_runtime/lifecycle.py: `LifecycleController`.
--
-- A component's hooks are code outside the controller. An environment answers each call of a hook
-- from the calls made before it: it returns, it raises an `Exception`, or the call is cancelled (a
-- `BaseException`, which `except Exception` lets through). `calls` is the log of all hook calls, the
-- newest last. `_transition_lock` lets one transition run at a time, so a transition is one step.
pub mod Sweep
pub mod Start
pub mod Stop
pub mod Order
mod Tests
use tesserix_mcp_runtime.Base.{
  ℕ, suc, ◌+◌, Bool, true, false, String, Option, none, some, List, [], ◌∷◌, ◌++◌, reverse,
}
use tesserix_mcp_runtime.Contracts.Vocabulary.{LifecycleState, startup, ready, draining, stopped}
use tesserix_mcp_runtime.Contracts.Failure.{Kind, Failure, cancelled_failure}

-- a component is known by a number; its name goes into the failure report
pub record Component : Type 0 where
  pub id : ℕ
  pub name : String

pub data Call : Type 0 where
  starts drains stops : Component → Call

pub data Answer : Type 0 where
  returns raises is_cancelled : Answer

abbrev pub Environment : Type 0
Environment = List Call → Call → Answer

pub record LifecycleController : Type 0 where
  pub components : List Component
  pub started : List Component
  pub state : LifecycleState
  pub calls : List Call

-- `__init__`
unfoldable pub init : List Component → LifecycleController
init components = record { components = components; started = []; state = startup; calls = [] }

-- how a transition ends: it returns, or raises what the failure says
pub data Outcome : Type 0 where
  done : Outcome
  fails : Failure → Outcome

abbrev pub lifecycle_failure : LifecycleState → String → ℕ → Failure
lifecycle_failure phase component count = record {
  kind = Kind.lifecycle_failure phase component count;
  type_name = "LifecycleFailure";
}

abbrev pub transition_error : String → LifecycleState → Failure
transition_error operation state = record {
  kind = Kind.lifecycle_transition operation state;
  type_name = "LifecycleTransitionError";
}

-- The loops of `_start`'s cleanup, `_drain` and `_stop`: call one hook of each component, whatever
-- the others do; count the failures and keep the name of the first one. A cancellation ends it.
pub record Swept : Type 0 where
  pub calls : List Call
  pub failed : Option String
  pub failures : ℕ
  pub interrupted : Bool

abbrev pub or_first : Option String → String → Option String
or_first none name = some name
or_first (some first) name = some first

unfoldable pub sweep :
    Environment → (Component → Call) → List Component → List Call → Option String → ℕ → Swept
sweep env call [] calls failed n = record {
  calls = calls;
  failed = failed;
  failures = n;
  interrupted = false;
}
sweep env call (c ∷ cs) calls failed n = elim (env calls (call c)) [
  | returns ↦ sweep env call cs (calls ++ call c ∷ []) failed n
  | raises ↦ sweep env call cs (calls ++ call c ∷ []) (or_first failed c.name) (n + 1)
  | is_cancelled ↦ record {
    calls = calls ++ call c ∷ [];
    failed = failed;
    failures = n;
    interrupted = true;
  }
]

-- the end of `_drain` and `_stop`
abbrev pub report : LifecycleState → Option String → ℕ → Outcome
report phase none n = done
report phase (some name) n = fails (lifecycle_failure phase name n)

-- the `except` branch of `_start`
unfoldable pub abort : LifecycleController → Component → Swept → LifecycleController × Outcome
abort s c swept = elim swept.interrupted [
  | true ↦ (record s { calls = swept.calls }, fails cancelled_failure)
  | false ↦ (
    record s { calls = swept.calls; state = stopped },
    fails (lifecycle_failure startup c.name swept.failures),
  )
]

-- the loop of `_start` over the components that are left
unfoldable pub start_each :
    Environment → List Component → LifecycleController → LifecycleController × Outcome
start_each env [] s = (record s { state = ready }, done)
start_each env (c ∷ cs) s = elim (env s.calls (starts c)) [
  | returns ↦
      start_each env cs
        (record s { calls = s.calls ++ starts c ∷ []; started = s.started ++ c ∷ [] })
  | raises ↦ abort s c (sweep env stops (c ∷ reverse s.started) (s.calls ++ starts c ∷ []) none 1)
  | is_cancelled ↦ (record s { calls = s.calls ++ starts c ∷ [] }, fails cancelled_failure)
]

unfoldable pub start : Environment → LifecycleController → LifecycleController × Outcome
start env s = elim s.state [
  | startup ↦ start_each env s.components s
  | other ↦ (s, fails (transition_error "start" other))
]

unfoldable pub finish_drain : LifecycleController → Swept → LifecycleController × Outcome
finish_drain s swept = elim swept.interrupted [
  | true ↦ (record s { state = draining; calls = swept.calls }, fails cancelled_failure)
  | false ↦ (
    record s { state = draining; calls = swept.calls },
    report draining swept.failed swept.failures,
  )
]

-- `drain`, after its deadline has passed `validate_deadline`
unfoldable pub drain : Environment → LifecycleController → LifecycleController × Outcome
drain env s = elim s.state [
  | draining ↦ (s, done)
  | stopped ↦ (s, done)
  | ready ↦ finish_drain s (sweep env drains (reverse s.started) s.calls none 0)
  | startup ↦ (s, fails (transition_error "drain" startup))
]

unfoldable pub finish_stop : LifecycleController → Swept → LifecycleController × Outcome
finish_stop s swept = elim swept.interrupted [
  | true ↦ (record s { calls = swept.calls }, fails cancelled_failure)
  | false ↦ (
    record s { state = stopped; calls = swept.calls },
    report stopped swept.failed swept.failures,
  )
]

unfoldable pub stop : Environment → LifecycleController → LifecycleController × Outcome
stop env s = elim s.state [
  | stopped ↦ (s, done)
  | other ↦ finish_stop s (sweep env stops (reverse s.started) s.calls none 0)
]
