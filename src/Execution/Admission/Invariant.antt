-- ===== src/Execution/Admission/Invariant.antt =====
-- The bulkheads: what the counters say of the leases that are held, in every history.
use mathlib.Core.List.{map-append}
use tesserix_mcp_runtime.Base.{
  suc, ◌≤◌, ◌<◌, String, none, some, ◌≡◌, refl, List, [], ◌∷◌, ◌++◌, arith, pos, next, eq_iff,
  length, map, ◌⊎◌, inl, inr, Option-cases, ap,
}
use tesserix_mcp_runtime.Base.Dict.{get}
use tesserix_mcp_runtime.Contracts.Failure.{ok}
use tesserix_mcp_runtime.Execution.Limits.{
  ExecutionLimits, max_global_concurrency, max_server_concurrency, max_tool_concurrency,
  max_tenant_concurrency,
}
use tesserix_mcp_runtime.Execution.Admission.{
  ExecutionController, Lease, init, or_zero, reached, admit, release,
}
use tesserix_mcp_runtime.Execution.Admission.Counts.{
  occurrences, Counts, or_zero-counted, Counts-empty, Counts-put, Counts-decrement,
}

abbrev pub tools : List Lease → List String
tools = map λ l. l.tool_name

abbrev pub tenants : List Lease → List String
tenants = map λ l. l.tenant

-- The counters are those of the leases held, and no bulkhead is over its limit.
pub record Inv (c : ExecutionController) (held : List Lease) : Type 0 where
  pub active : c.active ≡ pos (length held)
  pub by_tool : Counts c.by_tool (tools held)
  pub by_tenant : Counts c.by_tenant (tenants held)
  pub in_global : length held ≤ c.limits.integers max_global_concurrency
  pub in_server : length held ≤ c.limits.integers max_server_concurrency
  pub in_tool : (k : String) → occurrences k (tools held) ≤ c.limits.integers max_tool_concurrency
  pub in_tenant :
      (k : String) → occurrences k (tenants held) ≤ c.limits.integers max_tenant_concurrency

-- all four bulkheads have room for one more call of this tool and tenant
pub record HasRoom (c : ExecutionController) (held : List Lease) (tool tenant : String)
    : Type 0 where
  pub in_global : length held < c.limits.integers max_global_concurrency
  pub in_server : length held < c.limits.integers max_server_concurrency
  pub in_tool : occurrences tool (tools held) < c.limits.integers max_tool_concurrency
  pub in_tenant : occurrences tenant (tenants held) < c.limits.integers max_tenant_concurrency

module _ (c : ExecutionController) (held : List Lease) (tool tenant : String) (v : Inv c held) where
  tool_count : or_zero (get c.by_tool tool) ≡ pos (occurrences tool (tools held))
  tool_count = cc (v.by_tool.at tool, or_zero-counted (occurrences tool (tools held)))

  tenant_count : or_zero (get c.by_tenant tenant) ≡ pos (occurrences tenant (tenants held))
  tenant_count = cc (v.by_tenant.at tenant, or_zero-counted (occurrences tenant (tenants held)))

  reached-none : reached c tool tenant ≡ none → HasRoom c held tool tenant
  unfolding reached
  reached-none h = ground (arith, v.active, tool_count, tenant_count)

  pub HasRoom-reached : HasRoom c held tool tenant → reached c tool tenant ≡ none
  unfolding reached
  HasRoom-reached h = ground (arith, v.active, tool_count, tenant_count)

  admit-Inv :
      HasRoom c held tool tenant
      → Inv (admit c tool tenant).0 (record { tool_name = tool; tenant = tenant } ∷ held)
  unfolding admit
  admit-Inv room =
      rw (HasRoom-reached room, admit)
        (record {
          active = ap next v.active;
          by_tool = Counts-put c.by_tool (tools held) tool v.by_tool;
          by_tenant = Counts-put c.by_tenant (tenants held) tenant v.by_tenant;
          in_global = room.in_global;
          in_server = room.in_server;
          in_tool = λ k. ground (arith, v.in_tool k, room.in_tool, eq_iff tool k);
          in_tenant = λ k. ground (arith, v.in_tenant k, room.in_tenant, eq_iff tenant k);
        })

  -- Under the invariant a call is admitted exactly when every bulkhead has room for it, and then it
  -- is given a lease in its own name; a refused call changes no counter.
  pub admit_iff :
      (HasRoom c held tool tenant
        × ((admit c tool tenant).1 ≡ some (record { tool_name = tool; tenant = tenant }))
        × Inv (admit c tool tenant).0 (record { tool_name = tool; tenant = tenant } ∷ held))
      ⊎ ((¬ HasRoom c held tool tenant)
          × ((admit c tool tenant).1 ≡ none)
          × Inv (admit c tool tenant).0 held)
  admit_iff = elim (Option-cases (reached c tool tenant)) [
    | inl e ↦ inl (reached-none e, unfold admit in rw (e, admit) refl, admit-Inv (reached-none e))
    | inr (limit, e) ↦ inr (
      (λ room. absurd (ground (arith, HasRoom-reached room, e))),
      unfold admit in rw (e, admit) refl,
      unfold admit in
          rw (e, admit)
            (record {
              active = v.active;
              by_tool = v.by_tool;
              by_tenant = v.by_tenant;
              in_global = v.in_global;
              in_server = v.in_server;
              in_tool = v.in_tool;
              in_tenant = v.in_tenant;
            }),
    )
  ]

pub init-Inv : (l : ExecutionLimits) → Inv (init l) []
unfolding init
init-Inv l = record {
  active = refl;
  by_tool = Counts-empty;
  by_tenant = Counts-empty;
  in_global = omega arith;
  in_server = omega arith;
  in_tool = λ k. omega arith;
  in_tenant = λ k. omega arith;
}

occurrences_skip :
    (f : Lease → String) (k : String) (before after : List Lease) (x : Lease)
    → occurrences k (map f (before ++ after)) ≤ occurrences k (map f (before ++ x ∷ after))
occurrences_skip f k [] after x = ground arith
occurrences_skip f k (y ∷ ys) after x = ground (arith, occurrences_skip f k ys after x)

length_skip :
    (before after : List Lease) (x : Lease)
    → length (before ++ x ∷ after) ≡ suc (length (before ++ after))
length_skip [] after x = refl
length_skip (y ∷ ys) after x = ap suc (length_skip ys after x)

-- Under the invariant, releasing a lease that is held never raises, and leaves the counters of the
-- other leases.
pub release-Inv :
    (c : ExecutionController) (before after : List Lease) (lease : Lease)
    → Inv c (before ++ lease ∷ after)
    → ((release c lease).1 ≡ ok tt) × Inv (release c lease).0 (before ++ after)
unfolding release
release-Inv c before after lease v =
    let (by_tool, tool_ok, tool_counts) =
      Counts-decrement c.by_tool (tools before) (tools after) lease.tool_name
        (rw map-append at v.by_tool) in
    let (by_tenant, tenant_ok, tenant_counts) =
      Counts-decrement c.by_tenant (tenants before) (tenants after) lease.tenant
        (rw map-append at v.by_tenant) in
    (
      ground (arith, tool_ok, tenant_ok),
      rw (tool_ok, tenant_ok, release)
          (record {
            active = ground (arith, v.active, length_skip before after lease);
            by_tool = rw map-append tool_counts;
            by_tenant = rw map-append tenant_counts;
            in_global = omega (arith, v.in_global, length_skip before after lease);
            in_server = omega (arith, v.in_server, length_skip before after lease);
            in_tool = λ k.
                omega
                  (arith, v.in_tool k, occurrences_skip (λ l. l.tool_name) k before after lease);
            in_tenant = λ k.
                omega (arith, v.in_tenant k, occurrences_skip (λ l. l.tenant) k before after lease);
          }),
    )
