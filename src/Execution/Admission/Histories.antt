-- ===== src/Execution/Admission/Histories.antt =====
-- Histories of calls that enter and leave the bulkheads, in any interleaving. `admit` and `release`
-- do not await, so on the event loop each is one step.
use tesserix_mcp_runtime.Base.{
  ◌≤◌, String, none, some, ◌≡◌, refl, List, [], ◌∷◌, ◌++◌, arith, pos, length, inl, inr, ◌∙◌,
}
use tesserix_mcp_runtime.Execution.Limits.{
  ExecutionLimits, max_global_concurrency, max_server_concurrency, max_tool_concurrency,
  max_tenant_concurrency,
}
use tesserix_mcp_runtime.Execution.Admission.{ExecutionController, Lease, init, admit, release}
use tesserix_mcp_runtime.Execution.Admission.Counts.{occurrences}
use tesserix_mcp_runtime.Execution.Admission.Invariant.{
  Inv, tools, tenants, admit_iff, release-Inv, init-Inv,
}

-- A controller and the leases that calls hold, after some calls have come and gone.
pub data Reach (l : ExecutionLimits) : ExecutionController → List Lease → Type 0 where
  begins : {c : ExecutionController} {held : List Lease} → c ≡ init l → held ≡ [] → Reach l c held
  enters :
      {c c' : ExecutionController} {held : List Lease}
      → Reach l c held
      → (tool tenant : String) (lease : Lease) → admit c tool tenant ≡ (c', some lease)
      → Reach l c' (lease ∷ held)
  is_refused :
      {c c' : ExecutionController} {held : List Lease}
      → Reach l c held
      → (tool tenant : String) → admit c tool tenant ≡ (c', none)
      → Reach l c' held
  leaves :
      {c c' : ExecutionController} {held held' : List Lease}
      → Reach l c held
      → (before after : List Lease) (lease : Lease) → held ≡ before ++ lease ∷ after
      → held' ≡ before ++ after
      → c' ≡ (release c lease).0
      → Reach l c' held'

Reach-Inv :
    (l : ExecutionLimits) {c : ExecutionController} {held : List Lease}
    → Reach l c held
    → Inv c held
Reach-Inv l (begins e f) = rw (e, f) (init-Inv l)
Reach-Inv l (enters {c = c} {c' = c'} {held = held} r tool tenant lease e) =
    elim (admit_iff c held tool tenant (Reach-Inv l r)) [
      | inl (room, given, v) ↦
          let same : lease ≡ record { tool_name = tool; tenant = tenant } = cc (rw e at given) in
          rw same (rw e at v)
      | inr (full, given, v) ↦ absurd (cc (rw e at given))
    ]
Reach-Inv l (is_refused {c = c} {c' = c'} {held = held} r tool tenant e) =
    elim (admit_iff c held tool tenant (Reach-Inv l r)) [
      | inl (room, given, v) ↦ absurd (cc (rw e at given))
      | inr (full, given, v) ↦ rw e at v
    ]
Reach-Inv l (leaves {c = c} r before after lease e f g) =
    rw (f, g) (release-Inv c before after lease (rw e at (Reach-Inv l r))).1

pub admit-limits :
    (c : ExecutionController) (tool tenant : String) → (admit c tool tenant).0.limits ≡ c.limits
unfolding admit
admit-limits c tool tenant = ground arith

pub release-limits :
    (c : ExecutionController) (lease : Lease) → (release c lease).0.limits ≡ c.limits
unfolding release
release-limits c lease = ground arith

Reach-limits :
    (l : ExecutionLimits) {c : ExecutionController} {held : List Lease}
    → Reach l c held
    → c.limits ≡ l
unfolding init
Reach-limits l (begins e f) = rw e refl
Reach-limits l (enters {c = c} r tool tenant lease e) =
    rw e at (admit-limits c tool tenant) ∙ Reach-limits l r
Reach-limits l (is_refused {c = c} r tool tenant e) =
    rw e at (admit-limits c tool tenant) ∙ Reach-limits l r
Reach-limits l (leaves {c = c} r before after lease e f g) =
    rw g (release-limits c lease ∙ Reach-limits l r)

-- In every history the number of running calls, overall, of each tool and of each tenant, stays
-- within its limit, and the counter of running calls is the number of leases held.
pub within_limits :
    (l : ExecutionLimits) {c : ExecutionController} {held : List Lease}
    → Reach l c held
    → (c.active ≡ pos (length held))
      × (length held ≤ l.integers max_global_concurrency)
      × (length held ≤ l.integers max_server_concurrency)
      × ((tool : String) → occurrences tool (tools held) ≤ l.integers max_tool_concurrency)
      × ((tenant : String) → occurrences tenant (tenants held) ≤ l.integers max_tenant_concurrency)
within_limits l r =
    let v = Reach-Inv l r in
    let e = Reach-limits l r in
    (v.active, rw e at v.in_global, rw e at v.in_server, rw e at v.in_tool, rw e at v.in_tenant)
