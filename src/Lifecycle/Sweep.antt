-- ===== src/Lifecycle/Sweep.antt =====
-- The hook loops: which calls they make, and what they report.
use tesserix_mcp_runtime.Base.{
  ℕ, ◌+◌, false, String, Option, none, some, ◌≡◌, ◌≢◌, List, [], ◌∷◌, ◌++◌, map, arith, length,
}
use mathlib.Core.List.{append_assoc, append-nil}
use tesserix_mcp_runtime.Lifecycle.{
  Component, Call, raises, is_cancelled, Environment, sweep, or_first,
}

-- No hook call is cancelled, that is, no deadline cuts a transition short.
abbrev pub IsQuiet : Environment → Type 0
IsQuiet env = (log : List Call) (call : Call) → env log call ≢ is_cancelled

-- the components whose hook raises, when the hooks are called in this order after `log`
unfoldable pub failing :
    Environment → (Component → Call) → List Component → List Call → List Component
failing env call [] log = []
failing env call (c ∷ cs) log = elim (env log (call c)) [
  | raises ↦ c ∷ failing env call cs (log ++ call c ∷ [])
  | _ ↦ failing env call cs (log ++ call c ∷ [])
]

abbrev pub first_name : List Component → Option String
first_name [] = none
first_name (c ∷ cs) = some c.name

abbrev pub or_else : Option String → Option String → Option String
or_else none other = other
or_else (some name) other = some name

pub sweep-Quiet :
    (env : Environment) (call : Component → Call) (cs : List Component) (log : List Call)
    (failed : Option String) (n : ℕ)
    → IsQuiet env
    → sweep env call cs log failed n ≡ record {
      calls = log ++ map call cs;
      failed = or_else failed (first_name (failing env call cs log));
      failures = n + length (failing env call cs log);
      interrupted = false;
    }
unfolding sweep failing
sweep-Quiet env call [] log none n q = ground (arith, append-nil log)
sweep-Quiet env call [] log (some f) n q = ground (arith, append-nil log)
sweep-Quiet env call (c ∷ cs) log none n q = ground (
  arith,
  q log (call c),
  append_assoc log (call c ∷ []) (map call cs),
  sweep-Quiet env call cs (log ++ call c ∷ []) none n q,
  sweep-Quiet env call cs (log ++ call c ∷ []) (or_first none c.name) (n + 1) q,
)
sweep-Quiet env call (c ∷ cs) log (some f) n q = ground (
  arith,
  q log (call c),
  append_assoc log (call c ∷ []) (map call cs),
  sweep-Quiet env call cs (log ++ call c ∷ []) (some f) n q,
  sweep-Quiet env call cs (log ++ call c ∷ []) (or_first (some f) c.name) (n + 1) q,
)
