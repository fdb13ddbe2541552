-- ===== src/Schema/Resolve/Ends.antt =====
-- How far references are followed.
use tesserix_mcp_runtime.Base.{
  ℕ, zero, suc, ◌≤◌, ◌<◌, true, false, not, ◌||◌, String, Option, none, some, List, [], ◌∷◌, ◌++◌,
  contains, str_eq, if◌then◌else◌, ◌≡◌, refl, arith, Bool-cases, Option-cases, eq_iff, sym, subst,
  ||-false, inl, inr, is_some,
}
use tesserix_mcp_runtime.Json.{name, not_text, Value, null, text, Fields, end, field, count_fields}
use tesserix_mcp_runtime.Schema.{field_of}
use tesserix_mcp_runtime.Schema.Keywords.{mapping_of, has_key}
use tesserix_mcp_runtime.Schema.Resolve.{
  only_annotates, without_prefix, definition, enter, enter_named, follow, resolve,
  count_definitions, definition_count, resolved,
}

-- how many definitions the stack does not name
abbrev unnamed : List String → Fields → ℕ
unnamed stack end = 0
unnamed stack (field not_text v fs) = unnamed stack fs
unnamed stack (field (name k) v fs) =
    if contains k stack then unnamed stack fs else suc (unnamed stack fs)

contains-append_mono :
    (k l : String) (stack : List String)
    → contains k stack ≡ true
    → contains k (stack ++ (l ∷ [])) ≡ true
unfolding contains
contains-append_mono k l [] h = ground arith
contains-append_mono k l (x ∷ xs) h = ground (arith, contains-append_mono k l xs)

contains-append :
    (k l : String) (stack : List String) → str_eq l k ≡ true → contains k (stack ++ (l ∷ [])) ≡ true
unfolding contains
contains-append k l [] h = ground arith
contains-append k l (x ∷ xs) h = ground (arith, contains-append k l xs h)

unnamed_mono :
    (l : String) (stack : List String) (fs : Fields)
    → unnamed (stack ++ (l ∷ [])) fs ≤ unnamed stack fs
unnamed_mono l stack end = omega arith
unnamed_mono l stack (field not_text v fs) = unnamed_mono l stack fs
unnamed_mono l stack (field (name k) v fs) =
    ground (arith, unnamed_mono l stack fs, contains-append_mono k l stack)

field_of-has_key :
    (key : String) (v : Value) (fs : Fields) → field_of key fs ≡ some v → has_key key fs ≡ true
unfolding field_of has_key
field_of-has_key key v end e = ground arith
field_of-has_key key v (field not_text u fs) e = field_of-has_key key v fs e
field_of-has_key key v (field (name k) null fs) e = ground (arith, field_of-has_key key v fs)
field_of-has_key key v (field (name k) _ fs) e = ground (arith, field_of-has_key key v fs)

unnamed_falls :
    (key : String) (stack : List String) (fs : Fields)
    → contains key stack ≡ false
    → has_key key fs ≡ true
    → unnamed (stack ++ (key ∷ [])) fs < unnamed stack fs
unfolding has_key
unnamed_falls key stack end h m = ground arith
unnamed_falls key stack (field not_text v fs) h m = unnamed_falls key stack fs h m
unnamed_falls key stack (field (name k) v fs) h m = elim (Bool-cases (str_eq k key)) [
  | inl same ↦
      let at_key : k ≡ key = ground (arith, eq_iff k key, same) in
      let in_longer : contains k (stack ++ (key ∷ [])) ≡ true =
        contains-append k key stack (ground (arith, eq_iff key k, at_key)) in
      let not_before : contains k stack ≡ false = cc (at_key, h) in
      ground (arith, in_longer, not_before, unnamed_mono key stack fs)
  | inr other ↦
      let in_rest : has_key key fs ≡ true = ground (arith, m, other) in
      ground (arith, unnamed_falls key stack fs h in_rest, contains-append_mono k key stack)
]

-- what is left to name bounds the steps that `resolve` still takes
abbrev left : List String → Option Fields → ℕ
left stack none = 0
left stack (some ds) = unnamed stack ds

abbrev names_left : Fields → List String → ℕ
names_left root stack = left stack (mapping_of (field_of "$defs" root))

names_left_falls :
    (root target : Fields) (key : String) (stack : List String)
    → contains key stack ≡ false
    → definition root key ≡ some target
    → names_left root (stack ++ (key ∷ [])) < names_left root stack
unfolding definition mapping_of
names_left_falls root target key stack h e =
    elim (Option-cases (mapping_of (field_of "$defs" root))) [
      | inl missing ↦ ground (arith, e, missing)
      | inr (ds, there) ↦
          let inside : mapping_of (field_of key ds) ≡ some target = ground (arith, e, there) in
          elim (Option-cases (field_of key ds)) [
            | inl missing ↦ ground (arith, inside, missing)
            | inr (v, found) ↦
                let falls : unnamed (stack ++ (key ∷ [])) ds < unnamed stack ds =
                  unnamed_falls key stack ds h (field_of-has_key key v ds found) in
                subst (λ o. left (stack ++ (key ∷ [])) o < left stack o) (sym there) falls
          ]
    ]

module _ (next : Fields → List String → Option (Option Fields)) (root schema : Fields)
    (stack : List String)
    (ends : (target : Fields) (key : String)
      → contains key stack ≡ false
      → definition root key ≡ some target
      → is_some (next target (stack ++ (key ∷ []))) ≡ true) where
  enter_ends :
      (key : String)
      → contains key stack ≡ false
      → is_some (enter next root schema stack key (definition root key)) ≡ true
  unfolding enter
  enter_ends key h = elim (Option-cases (definition root key)) [
    | inl missing ↦ rw missing refl
    | inr (target, there) ↦ rw there (ends target key h there)
  ]

  enter_named_ends : (o : Option String) → is_some (enter_named next root schema stack o) ≡ true
  unfolding enter_named
  enter_named_ends none = refl
  enter_named_ends (some key) =
      elim (Bool-cases (not (only_annotates schema) || contains key stack)) [
        | inl barred ↦ rw barred refl
        | inr free ↦ rw free (enter_ends key (||-false (not (only_annotates schema)) _ free).1)
      ]

  follow_ends : (o : Option Value) → is_some (follow next root schema stack o) ≡ true
  unfolding follow
  follow_ends none = refl
  follow_ends (some (text reference)) = enter_named_ends (without_prefix "#/$defs/" reference)
  follow_ends (some _) = refl

resolve_ends :
    (fuel : ℕ) (root schema : Fields) (stack : List String)
    → names_left root stack < fuel
    → is_some (resolve fuel root schema stack) ≡ true
unfolding resolve
resolve_ends zero root schema stack h = ground arith
resolve_ends (suc fuel) root schema stack h =
    follow_ends (resolve fuel root) root schema stack
      (λ target key new there.
        resolve_ends fuel root target (stack ++ (key ∷ []))
          (omega (arith, h, names_left_falls root target key stack new there)))
      (field_of "$ref" schema)

unnamed_nil : (fs : Fields) → unnamed [] fs ≤ count_fields fs
unfolding contains
unnamed_nil end = omega arith
unnamed_nil (field not_text v fs) = omega (arith, unnamed_nil fs)
unnamed_nil (field (name k) v fs) = omega (arith, unnamed_nil fs)

-- Following the references of a schema always ends, whatever its definitions refer to, cycles
-- included: it gives a schema or says that there is none.
pub resolved_ends : (root schema : Fields) → is_some (resolved root schema) ≡ true
unfolding resolved definition_count count_definitions
resolved_ends root schema =
    resolve_ends _ root schema [] (bound (mapping_of (field_of "$defs" root)))
  where
    bound : (o : Option Fields) → left [] o < suc (count_definitions o)
    bound none = omega arith
    bound (some ds) = omega (arith, unnamed_nil ds)
