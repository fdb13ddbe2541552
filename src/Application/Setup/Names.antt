-- ===== src/Application/Setup/Names.antt =====
-- A configuration that is accepted, and the names in it.
use tesserix_mcp_runtime.Base.{
  ℕ, ◌+◌, ◌≤◌, Bool, true, false, String, List, [], ◌∷◌, contains, is_unique, All, ◌≡◌, refl, arith,
  inl, inr,
}
use tesserix_mcp_runtime.Base.Text.{codes}
use tesserix_mcp_runtime.Contracts.Failure.{FieldPath, ok, Result-cases}
use tesserix_mcp_runtime.Contracts.Laws.{each-ok}
use tesserix_mcp_runtime.Contracts.Metadata.{is_tool_name}
use tesserix_mcp_runtime.Application.Setup.{
  Name, text, Candidate, component_name, check_names, check_dependency, reserved_name, Dependencies,
  dependencies_of, Configuration, validate_configuration,
}

-- the text of a name
abbrev pub text_of : Name → String
text_of (text name) = name
text_of _ = ""

-- the names of the components, the last one in front
abbrev pub names_onto : List Candidate → List String → List String
names_onto [] names = names
names_onto (c ∷ cs) names = names_onto cs (text_of c.name ∷ names)

abbrev pub IsNamed : Candidate → Type 0
IsNamed c = (c.is_instance ≡ true) × (is_tool_name (codes (text_of c.name)) ≡ true)

component_name-ok :
    (path : FieldPath) (n : Name) (name : String)
    → component_name path n ≡ ok name
    → (text_of n ≡ name) × (is_tool_name (codes name) ≡ true)
unfolding component_name
component_name-ok path (text s) name h = (ground arith, ground arith)
component_name-ok path _ name h = absurd (ground arith)

check_names-ok :
    (collection : String) (index : ℕ) (cs : List Candidate) (names : List String)
    → is_unique names ≡ true
    → check_names collection index cs names ≡ ok tt
    → All IsNamed cs × (is_unique (names_onto cs names) ≡ true)
unfolding check_names
check_names-ok collection index [] names u h = (tt, u)
check_names-ok collection index (c ∷ cs) names u h =
    elim (Result-cases (component_name (FieldPath.item collection index "name") c.name)) [
      | inr (e, k) ↦ absurd (ground (arith, k))
      | inl (name, k) ↦
          let (same, valid) =
            component_name-ok (FieldPath.item collection index "name") c.name name k in
          let unique : is_unique (name ∷ names) ≡ true = unfold is_unique in ground (arith, k, u) in
          let (named, distinct) =
            check_names-ok collection (index + 1) cs (name ∷ names) unique (ground (arith, k)) in
          (((ground (arith, k), rw same valid), named), rw same distinct)
    ]

unique_pair : (x y : String) → contains x (y ∷ []) ≡ false → is_unique (x ∷ y ∷ []) ≡ true
unfolding is_unique contains
unique_pair x y h = ground arith

abbrev pub AllPresent : Dependencies → Type 0
AllPresent d =
    (d.catalog ≡ true)
    × (d.authorizer ≡ true)
    × (d.transport ≡ true)
    × (d.telemetry ≡ true)
    × (d.limits ≡ true)
    × (d.clock ≡ true)
    × (d.execution_limits ≡ true)
    × (d.redactor ≡ true)
    × (d.observability ≡ true)

is_present : (path : String) (b : Bool) → check_dependency (path, b) ≡ ok tt → b ≡ true
unfolding check_dependency
is_present path true h = refl
is_present path false h = ground (arith, h)

all_present :
    (d : Dependencies) → All (λ x. check_dependency x ≡ ok tt) (dependencies_of d) → AllPresent d
unfolding dependencies_of
all_present d h = (
  is_present _ _ h.0,
  is_present _ _ h.1.0,
  is_present _ _ h.1.1.0,
  is_present _ _ h.1.1.1.0,
  is_present _ _ h.1.1.1.1.0,
  is_present _ _ h.1.1.1.1.1.0,
  is_present _ _ h.1.1.1.1.1.1.0,
  is_present _ _ h.1.1.1.1.1.1.1.0,
  is_present _ _ h.1.1.1.1.1.1.1.1.0,
)

-- A configuration is accepted only if every dependency and component implements its protocol, the
-- catalog is within the tool limit, all names, the transport's among them, are well formed, no two components share a name, the
-- transport and the calls in flight among them, and no two readiness checks do.
pub validate_configuration-ok :
    (c : Configuration)
    → validate_configuration c ≡ ok tt
    → AllPresent c.dependencies
      × (is_tool_name (codes (text_of c.transport)) ≡ true)
      × (c.tools ≤ c.max_tools)
      × All IsNamed c.lifecycle
      × (is_unique (names_onto c.lifecycle (text_of c.transport ∷ reserved_name ∷ [])) ≡ true)
      × All IsNamed c.readiness_checks
      × (is_unique (names_onto c.readiness_checks []) ≡ true)
unfolding validate_configuration dependencies_of
validate_configuration-ok c h =
    elim (Result-cases (component_name (FieldPath.field "transport.name") c.transport)) [
      | inr (e, k) ↦ absurd (ground (arith, k))
      | inl (transport, k) ↦
          let (same, valid) =
            component_name-ok (FieldPath.field "transport.name") c.transport transport k in
          let unique = unique_pair transport reserved_name (ground (arith, k)) in
          let (named, distinct) =
            check_names-ok "lifecycle" 0 c.lifecycle (transport ∷ reserved_name ∷ []) unique
              (ground (arith, k)) in
          let (checks, distinct_checks) =
            check_names-ok "readiness_checks" 0 c.readiness_checks [] (unfold is_unique in refl)
              (ground (arith, k)) in
          (
            all_present c.dependencies
                (each-ok check_dependency (dependencies_of c.dependencies) (ground (arith, k))),
            rw same valid,
            ground (arith, k),
            named,
            rw same distinct,
            checks,
            distinct_checks,
          )
    ]
