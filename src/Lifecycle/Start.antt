-- ===== src/Lifecycle/Start.antt =====
-- `_start` and the whole life of a controller.
use mathlib.Core.List.{append_assoc, append-nil}
use tesserix_mcp_runtime.Base.{
  ◌+◌, none, ◌≡◌, refl, List, [], ◌∷◌, ◌++◌, map, reverse, arith, length, ◌⊎◌, inl, inr, ap, subst,
}
use tesserix_mcp_runtime.Contracts.Vocabulary.{startup, ready, stopped}
use tesserix_mcp_runtime.Lifecycle.{
  Component, Call, Answer, returns, raises, is_cancelled, starts, drains, stops, Environment,
  LifecycleController, Outcome, done, fails, abort, lifecycle_failure, init, start_each, start,
  drain, stop,
}
use tesserix_mcp_runtime.Lifecycle.Sweep.{IsQuiet, failing, sweep-Quiet}
use tesserix_mcp_runtime.Lifecycle.Stop.{stop_Quiet, drain_Quiet}

-- the starts of these components, called in order after these calls, all return
abbrev pub StartsReturn : Environment → List Call → List Component → Type 0
StartsReturn env calls [] = Unit
StartsReturn env calls (c ∷ cs) =
    (env calls (starts c) ≡ returns) × StartsReturn env (calls ++ starts c ∷ []) cs

-- all components were started, in order
abbrev pub AllStarted :
    Environment → LifecycleController → List Component → LifecycleController × Outcome → Type 0
AllStarted env s cs r =
    StartsReturn env s.calls cs
    × (r.0
        ≡ record s { state = ready; started = s.started ++ cs; calls = s.calls ++ map starts cs })
    × (r.1 ≡ done)

-- `c` failed to start after `before`, whose starts returned: it and all started ones were stopped, the latest first
abbrev pub RolledBack :
    Environment
    → LifecycleController
    → List Component
    → Component
    → LifecycleController × Outcome
    → Type 0
RolledBack env s before c r =
    let tried = s.calls ++ map starts (before ++ c ∷ []) in
    let undone = c ∷ reverse (s.started ++ before) in
    StartsReturn env s.calls before
    × (env (s.calls ++ map starts before) (starts c) ≡ raises)
    × (r.0 ≡ record s {
      state = stopped;
      started = s.started ++ before;
      calls = tried ++ map stops undone;
    })
    × (r.1 ≡ fails (lifecycle_failure startup c.name (1 + length (failing env stops undone tried))))

abbrev Started :
    Environment → LifecycleController → List Component → LifecycleController × Outcome → Type 0
Started env s cs r =
    AllStarted env s cs r
    ⊎ ((before : List Component) × (c : Component) × (after : List Component) × (cs
          ≡ before ++ c ∷ after)
        × RolledBack env s before c r)

Started-cons :
    (env : Environment) (s : LifecycleController) (c : Component) (cs : List Component)
    (r : LifecycleController × Outcome)
    → env s.calls (starts c) ≡ returns
    → Started env
        (record s { calls = s.calls ++ starts c ∷ []; started = s.started ++ c ∷ [] })
        cs
        r
    → Started env s (c ∷ cs) r
Started-cons env s c cs r first (inl (rest, h, k)) = inl (
  (first, rest),
  ground (
    arith,
    append_assoc s.started (c ∷ []) cs,
    append_assoc s.calls (starts c ∷ []) (map starts cs),
  ),
  k,
)
Started-cons env s c cs r first (inr (before, d, after, e, (rest, failed, h, k))) =
    let started = append_assoc s.started (c ∷ []) before in
    let tried = append_assoc s.calls (starts c ∷ []) (map starts (before ++ d ∷ [])) in
    inr (
      c ∷ before,
      d,
      after,
      ap (◌∷◌ c) e,
      (
        (first, rest),
        subst (λ calls. env calls (starts d) ≡ raises)
            (append_assoc s.calls (starts c ∷ []) (map starts before)) failed,
        rw (started, tried) at h,
        rw (started, tried) at k,
      ),
    )

Answer-cases : (a : Answer) → (a ≡ returns) ⊎ ((a ≡ raises) ⊎ (a ≡ is_cancelled))
Answer-cases returns = inl refl
Answer-cases raises = inr (inl refl)
Answer-cases is_cancelled = inr (inr refl)

start_each-Started :
    (env : Environment) (cs : List Component) (s : LifecycleController)
    → IsQuiet env
    → Started env s cs (start_each env cs s)
unfolding start_each abort
start_each-Started env [] s q =
    inl (tt, ground (arith, append-nil s.started, append-nil s.calls), refl)
start_each-Started env (c ∷ cs) s q =
    let called = s.calls ++ starts c ∷ [] in
    let next =
      start_each-Started env cs (record s { calls = called; started = s.started ++ c ∷ [] }) q in
    elim (Answer-cases (env s.calls (starts c))) [
      | inl e ↦
          let after = record s { calls = called; started = s.started ++ c ∷ [] } in
          let goes_on : start_each env cs after ≡ start_each env (c ∷ cs) s = ground (arith, e) in
          subst (Started env s (c ∷ cs)) goes_on (Started-cons env s c cs _ e next)
      | inr (inl e) ↦ inr (
        [],
        c,
        cs,
        refl,
        (
          tt,
          ground (arith, e, append-nil s.calls),
          ground (
            arith,
            e,
            append-nil s.started,
            sweep-Quiet env stops (c ∷ reverse s.started) called none 1 q,
          ),
          ground (
            arith,
            e,
            append-nil s.started,
            sweep-Quiet env stops (c ∷ reverse s.started) called none 1 q,
          ),
        ),
      )
      | inr (inr e) ↦ absurd (q s.calls (starts c) e)
    ]

-- When no hook call is cancelled, a start either starts every component in order, each start
-- returning, and is ready, or stops at the first one whose start raises: then that one and those started before it are stopped in
-- reverse order, the controller is stopped for good, and the failure names it and counts it with the
-- cleanup calls that raised.
pub start_Quiet :
    (env : Environment) (components : List Component)
    → IsQuiet env
    → AllStarted env (init components) components (start env (init components))
      ⊎ ((before : List Component) × (c : Component) × (after : List Component) × (components
            ≡ before ++ c ∷ after)
          × RolledBack env (init components) before c (start env (init components)))
unfolding start init
start_Quiet env components q = start_each-Started env components (unfold init in init components) q

-- The whole life of a controller whose start succeeds, when no hook call is cancelled: every component is started in order, then
-- drained and then stopped in reverse order, each exactly once.
pub full_life :
    (env : Environment) (components : List Component)
    → IsQuiet env
    → (start env (init components)).1 ≡ done
    → let ready_s = (start env (init components)).0 in
      let stopped_s = (stop env (drain env ready_s).0).0 in
      (stopped_s.state ≡ stopped)
      × (stopped_s.calls
          ≡ (map starts components ++ map drains (reverse components))
            ++ map stops (reverse components))
unfolding init
full_life env components q h = elim (start_Quiet env components q) [
  | inl (_, at_ready, _) ↦
      let ready_s = (start env (init components)).0 in
      let drained = drain_Quiet env ready_s q (ground (arith, at_ready)) in
      let stopped_s = stop_Quiet env (drain env ready_s).0 q (ground (arith, drained.0)) in
      ground (arith, at_ready, drained.0, stopped_s.0)
  | inr (before, c, after, e, (_, _, _, failed)) ↦ absurd (ground (arith, h, failed))
]
