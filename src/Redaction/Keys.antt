-- ===== src/Redaction/Keys.antt =====
-- The keys that `_transform` gives the redacted mapping.
use tesserix_mcp_runtime.Base.{
  ℕ, zero, suc, ◌+◌, ◌≤◌, ◌<◌, Bool, true, false, String, some, List, [], ◌∷◌, length, contains,
  str_eq, if◌then◌else◌, ◌≡◌, ◌≢◌, refl, ap, arith, eq_iff,
}
use tesserix_mcp_runtime.Redaction.{unused_key, or_key, output_key}
use tesserix_mcp_runtime.Redaction.Decimal.{tagged, tagged-injective}

-- a list without the first place of a text
without_one : String → List String → List String
without_one t [] = []
without_one t (x ∷ xs) = if str_eq x t then xs else x ∷ without_one t xs

length-without_one :
    (t : String) (xs : List String)
    → contains t xs ≡ true
    → length xs ≡ suc (length (without_one t xs))
unfolding without_one contains
length-without_one t [] h = ground (arith, h)
length-without_one t (x ∷ xs) h = ground (arith, h, length-without_one t xs)

contains-without_one :
    (t asked : String) (xs : List String)
    → t ≢ asked
    → contains asked xs ≡ true
    → contains asked (without_one t xs) ≡ true
unfolding without_one contains
contains-without_one t asked [] d h = ground (arith, h)
contains-without_one t asked (x ∷ xs) d h =
    ground (arith, h, d, contains-without_one t asked xs d, eq_iff x t, eq_iff x asked)

-- More fuel than the suffixed keys that can still be taken is enough.
unused_key-found :
    (fuel : ℕ) (key : String) (k : ℕ) (output left : List String)
    → ((j : ℕ)
        → k ≤ j
        → contains (tagged key j) output ≡ true
        → contains (tagged key j) left ≡ true)
    → length left < fuel
    → (found : String) × (unused_key fuel key (k + 1) (tagged key k) output ≡ some found)
      × (contains found output ≡ false)
unfolding unused_key
unused_key-found zero key k output left h small = absurd (omega (arith, small))
unused_key-found (suc fuel) key k output left h small =
    split (contains (tagged key k) output) refl (λ used.
      let less = without_one (tagged key k) left in
      let shorter : length less < fuel =
        omega (arith, small, length-without_one (tagged key k) left (h k (omega arith) used)) in
      unused_key-found fuel key (k + 1) output less
        (λ j after taken.
          contains-without_one (tagged key k) (tagged key j) left
            (λ e. let same = tagged-injective key k j e in absurd (omega (arith, after, same)))
            (h j (omega (arith, after)) taken))
        shorter)
  where
    split :
        (b : Bool)
        → contains (tagged key k) output ≡ b
        → (contains (tagged key k) output ≡ true
            → (found : String) × (unused_key fuel key (k + 1 + 1) (tagged key (k + 1)) output
                ≡ some found)
              × (contains found output ≡ false))
        → (found : String) × ((elim b [
          | false ↦ some (tagged key k)
          | true ↦ unused_key fuel key (k + 1 + 1) (tagged key (k + 1)) output
        ])
            ≡ some found)
          × (contains found output ≡ false)
    split true used next = next used
    split false free next = (tagged key k, refl, free)

-- The loop that looks for an unused key always ends within the fuel that `output_key` gives it, and the
-- key that it finds is none of the keys that the output has.
pub unused_key_ends :
    (key : String) (output : List String)
    → (found : String) × (unused_key (suc (suc (length output))) key 2 key output ≡ some found)
      × (output_key key output ≡ found)
      × (contains found output ≡ false)
unfolding output_key unused_key
unused_key_ends key output =
    let (found, ended, free) =
      first (contains key output) refl
        (unused_key-found (suc (length output)) key 2 output output (λ j _ h. h) (omega arith)) in
    (found, ended, ap (or_key key) ended, free)
  where
    first :
        (b : Bool)
        → contains key output ≡ b
        → ((found : String) × (unused_key (suc (length output)) key 3 (tagged key 2) output
              ≡ some found)
            × (contains found output ≡ false))
        → (found : String) × ((elim b [
          | false ↦ some key
          | true ↦ unused_key (suc (length output)) key 3 (tagged key 2) output
        ])
            ≡ some found)
          × (contains found output ≡ false)
    first true used next = next
    first false free next = (key, refl, free)

pub output_key-new :
    (key : String) (output : List String) → contains (output_key key output) output ≡ false
output_key-new key output = let (found, ended, is, free) = unused_key_ends key output in rw is free
