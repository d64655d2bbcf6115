-- ===== src/Common/Lists.antt =====
-- Lists measured and counted by native numbers.
use Prim.Native.Nat.{ℕ, suc, ◌+◌, ◌≤◌, ◌<◌}
use mathlib.Core.Path.{◌≡◌, refl}
use mathlib.Core.Logic.{inl, inr}
use mathlib.Core.Bool.{Bool, true, false, ◌||◌, ◌&&◌, or_assoc}
use mathlib.Core.List.{List, [], ◌∷◌, ◌++◌}
use native.Mathlib.Omega.{arith}
use alter.Common.Tests.{◌==◌, if◌then◌else◌, Bool-cases}

module _ {ℓ} {A : Type ℓ} where
  abbrev pub length : List A → ℕ
  length [] = 0
  length (_ ∷ xs) = suc (length xs)

  pub length-append : (xs ys : List A) → length (xs ++ ys) ≡ length xs + length ys
  length-append [] ys = omega arith
  length-append (x ∷ xs) ys = omega (arith, length-append xs ys)

abbrev pub has : ℕ → List ℕ → Bool
has a [] = false
has a (x ∷ xs) = (a == x) || has a xs

abbrev pub count : ℕ → List ℕ → ℕ
count a [] = 0
count a (x ∷ xs) = (if a == x then 1 else 0) + count a xs

pub count-append : (p : ℕ) (xs ys : List ℕ) → count p (xs ++ ys) ≡ count p xs + count p ys
count-append p [] ys = omega arith
count-append p (x ∷ xs) ys = omega (arith, count-append p xs ys)

pub has-append : (a : ℕ) (xs ys : List ℕ) → has a (xs ++ ys) ≡ (has a xs || has a ys)
has-append a [] ys = refl
has-append a (x ∷ xs) ys = rw (has-append a xs ys, or_assoc)

-- One copy of `a` less.
unfoldable pub remove_one : ℕ → List ℕ → List ℕ
remove_one a [] = []
remove_one a (x ∷ xs) = if a == x then xs else x ∷ remove_one a xs

pub count-remove_one :
    (a b : ℕ) (xs : List ℕ)
    → 0 < count a xs
    → count b (remove_one a xs) + (if b == a then 1 else 0) ≡ count b xs
unfolding remove_one
count-remove_one a b [] h = absurd (omega arith)
count-remove_one a b (x ∷ xs) h = elim (Bool-cases (a == x)) [
  | inl e ↦ rw e (ground arith)
  | inr e ↦ rw e (ground (arith, count-remove_one a b xs))
]

pub length-remove_one :
    (a : ℕ) (xs : List ℕ) → 0 < count a xs → suc (length (remove_one a xs)) ≡ length xs
unfolding remove_one
length-remove_one a [] h = absurd (omega arith)
length-remove_one a (x ∷ xs) h = ground (arith, length-remove_one a xs)

-- A list that holds nothing more often than another is no longer, and shorter if it misses one.
pub length-le_of_count :
    (xs ys : List ℕ) → ((a : ℕ) → count a xs ≤ count a ys) → length xs ≤ length ys
length-le_of_count [] ys h = omega arith
length-le_of_count (x ∷ xs) ys h =
    let there : 0 < count x ys = ground (arith, h x) in
    omega (
      arith,
      length-remove_one x ys there,
      length-le_of_count xs (remove_one x ys)
          λ a. ground (arith, h a, count-remove_one x a ys there),
    )

pub length-lt_of_count :
    (p : ℕ) (xs ys : List ℕ)
    → ((a : ℕ) → count a xs ≤ count a ys)
    → count p xs < count p ys
    → length xs < length ys
length-lt_of_count p xs ys h lt = length-le_of_count (p ∷ xs) ys λ a. elim (Bool-cases (a == p)) [
  | inl e ↦ ground (arith, h a, h p)
  | inr e ↦ rw e (omega (arith, h a))
]

-- `n` put behind the first `e`.
unfoldable pub insert_after : ℕ → ℕ → List ℕ → List ℕ
insert_after e n [] = []
insert_after e n (x ∷ xs) = if x == e then x ∷ n ∷ xs else x ∷ insert_after e n xs

pub has-insert_after :
    (a e n : ℕ) (xs : List ℕ) → has a (insert_after e n xs) ≡ (has a xs || (has e xs && (a == n)))
unfolding insert_after
has-insert_after a e n [] = refl
has-insert_after a e n (x ∷ xs) = ground (arith, has-insert_after a e n xs)

pub length-insert_after :
    (e n : ℕ) (xs : List ℕ) → has e xs ≡ true → length (insert_after e n xs) ≡ suc (length xs)
unfolding insert_after
length-insert_after e n [] h = absurd (cc)
length-insert_after e n (x ∷ xs) h = ground (arith, length-insert_after e n xs)

pub has-remove_one : (a e : ℕ) (xs : List ℕ) → has a (remove_one e xs) ≡ true → has a xs ≡ true
unfolding remove_one
has-remove_one a e [] h = h
has-remove_one a e (x ∷ xs) h = ground (arith, has-remove_one a e xs)

pub count-has : (a : ℕ) (xs : List ℕ) → has a xs ≡ true → 0 < count a xs
count-has a [] h = absurd (cc)
count-has a (x ∷ xs) h = ground (arith, count-has a xs)
