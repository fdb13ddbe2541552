-- ===== src/Tool/Validate/Visits.antt =====
-- The definitions that a walk visits.
use tesserix_mcp_runtime.Base.{
  ℕ, ◌+◌, ◌≤◌, Bool, true, false, String, Option, List, [], ◌∷◌, ◌++◌, str_eq, leb, is_some,
  if◌then◌else◌, ◌≡◌, ◌⊎◌, inl, inr, subst, arith, Bool-cases, eq_iff, some, none, refl, not, ◌||◌,
  contains,
}
use tesserix_mcp_runtime.Base.Dict.{get, put, get-put}
use tesserix_mcp_runtime.Json.{Value, Fields}
use tesserix_mcp_runtime.Schema.Equality.{entry}
use tesserix_mcp_runtime.Tool.Violation.{Place, under, passed, else_passed, if_passed}
use tesserix_mcp_runtime.Base.Text.{codes}
use tesserix_mcp_runtime.Schema.Keywords.{has_key}
use tesserix_mcp_runtime.Tool.Keywords.{is_definition_name}
use tesserix_mcp_runtime.Tool.{SchemaPolicy, max_schema_nodes}
use tesserix_mcp_runtime.Tool.Validate.{Walk, is_seen, revisit, validate_definition, validate_value}
use tesserix_mcp_runtime.Tool.Validate.Keeps.{Keeps, value_Keeps}
use tesserix_mcp_runtime.Tool.Validate.Parts.{Validated}

abbrev pub visited : Walk → String → Bool
visited w key = is_some (get w.depths key)

-- how the walk may change: nodes are counted up to the limit, no visit is forgotten, and what is
-- newly visited has been passed
pub record Advances (policy : SchemaPolicy) (definitions : Fields) (top : Place) (w after : Walk)
    : Type 0 where
  pub nodes_grow : w.nodes ≤ after.nodes
  pub nodes_within :
      w.nodes ≤ policy.limit max_schema_nodes → after.nodes ≤ policy.limit max_schema_nodes
  pub remembers : (key : String) → visited w key ≡ true → visited after key ≡ true
  pub passes_new :
      (key : String)
      → visited after key ≡ true
      → (visited w key ≡ true) ⊎ Validated policy definitions top (entry key definitions)

module _ (policy : SchemaPolicy) (definitions : Fields) (top : Place) where
  pub same : (w : Walk) → Advances policy definitions top w w
  same w = record {
    nodes_grow = omega arith;
    nodes_within = λ h. h;
    remembers = λ key h. h;
    passes_new = λ key h. inl h;
  }

  pub chain :
      (u v w : Walk)
      → Advances policy definitions top u v
      → Advances policy definitions top v w
      → Advances policy definitions top u w
  chain u v w a b = record {
    nodes_grow = omega (arith, a.nodes_grow, b.nodes_grow);
    nodes_within = λ h. b.nodes_within (a.nodes_within h);
    remembers = λ key h. b.remembers key (a.remembers key h);
    passes_new = λ key h. elim (b.passes_new key h) [
      | inl before ↦ a.passes_new key before
      | inr done ↦ inr done
    ];
  }

  counted :
      (w : Walk)
      → leb (w.nodes + 1) (policy.limit max_schema_nodes) ≡ true
      → Advances policy definitions top w (record w { nodes = w.nodes + 1 })
  counted w h = record {
    nodes_grow = omega arith;
    nodes_within = λ k. ground (arith, h);
    remembers = λ key k. k;
    passes_new = λ key k. inl k;
  }

  visited-put :
      (w : Walk) (key asked : String) (depth : ℕ)
      → visited (record w { depths = put w.depths key depth }) asked
        ≡ (if str_eq key asked then true else visited w asked)
  visited-put w key asked depth = ground (arith, get-put w.depths key asked depth)

  entered :
      (left : ℕ) (stack : List String) (key : String) (depth : ℕ) (w after : Walk)
      → validate_value policy definitions top left false
          (stack ++ (key ∷ []))
          (under (under top "$defs") key)
          (entry key definitions)
          (record w { depths = put w.depths key depth })
        ≡ passed after
      → Advances policy definitions top (record w { depths = put w.depths key depth }) after
      → Advances policy definitions top w after
  entered left stack key depth w after h a = record {
    nodes_grow = a.nodes_grow;
    nodes_within = a.nodes_within;
    remembers = λ asked k. a.remembers asked (ground (arith, k, visited-put w key asked depth));
    passes_new = λ asked k. elim (a.passes_new asked k) [
      | inr done ↦ inr done
      | inl before ↦ elim (Bool-cases (str_eq key asked)) [
        | inl is ↦
            let equal : key ≡ asked = ground (arith, eq_iff key asked, is) in
            inr (
              subst (λ x. Validated policy definitions top (entry x definitions)) equal
                (
                  left,
                  false,
                  stack ++ (key ∷ []),
                  under (under top "$defs") key,
                  record w { depths = put w.depths key depth },
                  after,
                  h,
                ))
        | inr other ↦ inl (ground (arith, before, other, visited-put w key asked depth))
      ]
    ];
  }

  pub value_Advances :
      (left : ℕ) (root : Bool) (stack : List String) (place : Place) (v : Option Value)
      → Keeps
          (Advances policy definitions top)
          (validate_value policy definitions top left root stack place v)
  value_Advances =
      value_Keeps policy definitions top (Advances policy definitions top) same chain counted
        entered

  -- the visit of a definition that passes has visited it
  pub definition_visits :
      (left : ℕ) (key : String) (place : Place) (depth : ℕ) (stack : List String) (w after : Walk)
      → validate_definition policy definitions top
          (validate_value policy definitions top left false)
          key
          place
          depth
          stack
          w
        ≡ passed after
      → Advances policy definitions top w after × (visited after key ≡ true)
  unfolding validate_definition revisit
  definition_visits left key place depth stack w after h =
      let (named, rest) =
        else_passed (not (has_key key definitions) || not (is_definition_name (codes key))) _ _ _
          after h in
      let (new, walked) = else_passed (contains key stack) _ _ _ after rest in
      elim (if_passed (is_seen depth (get w.depths key)) (passed w) _ after walked) [
        | inl (seen, done) ↦
            let equal : w ≡ after = ground (arith, done) in
            let there : visited w key ≡ true = seen_visited (get w.depths key) seen in
            (
              subst (Advances policy definitions top w) equal (same w),
              subst (λ u. visited u key ≡ true) equal there,
            )
        | inr (unseen, into) ↦
            let marked = record w { depths = put w.depths key depth } in
            let inside =
              value_Advances left false (stack ++ (key ∷ [])) (under (under top "$defs") key)
                (entry key definitions) marked after into in
            (
              entered left stack key depth w after into inside,
              inside.remembers key (ground (arith, visited-put w key key depth, eq_iff key key)),
            )
      ]
    where
      seen_visited : (o : Option ℕ) → is_seen depth o ≡ true → is_some o ≡ true
      seen_visited none k = k
      seen_visited (some p) k = refl
