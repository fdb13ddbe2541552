-- ===== src/Execution/Admission/Counts.antt =====
-- A dictionary of counters against the list of keys that it counts.
use tesserix_mcp_runtime.Base.{
  ℕ, zero, suc, ◌+◌, ◌≤◌, String, Option, none, some, ◌≡◌, refl, List, [], ◌∷◌, ◌++◌, arith, ℤ, pos,
  next, str_eq, eq_iff, if◌then◌else◌, length,
}
use tesserix_mcp_runtime.Base.Dict.{Dict, get, put, remove, get-put, get-remove, get-empty, empty}
use tesserix_mcp_runtime.Contracts.Failure.{ok}
use tesserix_mcp_runtime.Execution.Admission.{or_zero, decrement}

-- how often a key occurs
abbrev pub occurrences : String → List String → ℕ
occurrences k [] = 0
occurrences k (x ∷ xs) = if str_eq x k then suc (occurrences k xs) else occurrences k xs

pub occurrences-append :
    (k : String) (xs ys : List String)
    → occurrences k (xs ++ ys) ≡ occurrences k xs + occurrences k ys
occurrences-append k [] ys = omega arith
occurrences-append k (x ∷ xs) ys = ground (arith, occurrences-append k xs ys)

pub occurrences-le : (k : String) (xs : List String) → occurrences k xs ≤ length xs
occurrences-le k [] = omega arith
occurrences-le k (x ∷ xs) = ground (arith, occurrences-le k xs)

-- A counter is present exactly when it is positive.
abbrev pub counted : ℕ → Option ℤ
counted zero = none
counted (suc n) = some (pos (suc n))

pub record Counts (d : Dict ℤ) (keys : List String) : Type 0 where
  pub at : (k : String) → get d k ≡ counted (occurrences k keys)

pub or_zero-counted : (n : ℕ) → or_zero (counted n) ≡ pos n
or_zero-counted zero = refl
or_zero-counted (suc n) = refl

pub Counts-empty : Counts empty []
Counts-empty = record { at = λ k. get-empty k }

next-counted : (n : ℕ) → some (next (or_zero (counted n))) ≡ counted (suc n)
next-counted n = rw (or_zero-counted n) refl

pub Counts-put :
    (d : Dict ℤ) (keys : List String) (k : String)
    → Counts d keys
    → Counts (put d k (next (or_zero (get d k)))) (k ∷ keys)
Counts-put d keys k c = record {
  at = λ j. ground (
    arith,
    get-put d k j (next (or_zero (get d k))),
    c.at k,
    c.at j,
    eq_iff k j,
    next-counted (occurrences k keys),
  );
}

middle :
    (j k : String) (before after : List String)
    → occurrences j (before ++ k ∷ after) ≡ (
        if str_eq k j
        then suc (occurrences j (before ++ after))
        else occurrences j (before ++ after))
middle j k before after =
    ground (arith, occurrences-append j before (k ∷ after), occurrences-append j before after)

-- the dictionary after `_decrement`
abbrev lowered : Dict ℤ → String → ℕ → Dict ℤ
lowered d k zero = remove d k
lowered d k (suc n) = put d k (pos (suc n))

lowered-get :
    (d : Dict ℤ) (k j : String) (n : ℕ)
    → get (lowered d k n) j ≡ (if str_eq k j then counted n else get d j)
lowered-get d k j zero = get-remove d k j
lowered-get d k j (suc n) = get-put d k j (pos (suc n))

decrement-lowered :
    (d : Dict ℤ) (k : String) (n : ℕ)
    → get d k ≡ counted (suc n)
    → decrement d k ≡ ok (lowered d k n)
unfolding decrement
decrement-lowered d k zero h = rw (h, decrement) refl
decrement-lowered d k (suc n) h = rw (h, decrement) refl

pub Counts-decrement :
    (d : Dict ℤ) (before after : List String) (k : String)
    → Counts d (before ++ k ∷ after)
    → (d' : Dict ℤ) × (decrement d k ≡ ok d') × Counts d' (before ++ after)
Counts-decrement d before after k c =
    let n = occurrences k (before ++ after) in
    (
      lowered d k n,
      decrement-lowered d k n (ground (arith, c.at k, middle k k before after, eq_iff k k)),
      record {
        at = λ j. ground (arith, lowered-get d k j n, c.at j, middle j k before after, eq_iff k j);
      },
    )
