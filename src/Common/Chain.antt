-- ===== src/Common/Chain.antt =====
-- Chains of `next` pointers: from `p` the function `next` leads through distinct addresses to `q`.
use Prim.Native.Nat.{ℕ, zero, suc}
use mathlib.Core.Path.{◌≡◌, refl}
use mathlib.Core.Logic.{inl, inr}
use mathlib.Core.Bool.{true, false}
use mathlib.Core.List.{List, [], ◌∷◌, ◌++◌}
use native.Mathlib.Omega.{arith}
use alter.Common.Tests.{◌==◌, Bool-cases}
use alter.Common.Lists.{has, has-append, length}

pub data Chain (next : ℕ → ℕ) (stop : ℕ) : ℕ → List ℕ → Type 0 where
  nil : Chain next stop stop []
  cons :
      {p q : ℕ} {xs : List ℕ}
      → next p ≡ q
      → has p xs ≡ false
      → Chain next stop q xs
      → Chain next stop p (p ∷ xs)

module _ {next : ℕ → ℕ} {stop : ℕ} where
  -- A chain depends on `next` at its own addresses only.
  pub frame :
      {p : ℕ} {xs : List ℕ} (next' : ℕ → ℕ)
      → Chain next stop p xs
      → ((a : ℕ) → has a xs ≡ true → next' a ≡ next a)
      → Chain next' stop p xs
  frame next' nil same = nil
  frame next' (cons {p} e out c) same =
      cons (ground (arith, same p)) out (frame next' c λ a i. same a (ground arith))

  pub append :
      {end p : ℕ} {ys xs : List ℕ}
      → Chain next stop p xs
      → Chain next end stop ys
      → ((a : ℕ) → has a xs ≡ true → has a ys ≡ false)
      → Chain next end p (xs ++ ys)
  append nil d apart = d
  append {ys} (cons {p} {xs} e out c) d apart =
      cons e (rw (has-append p xs ys, out) (apart p (ground arith)))
        (append c d λ a i. apart a (ground arith))

-- The addresses met in `n` steps from `p`.
unfoldable pub walk : (ℕ → ℕ) → ℕ → ℕ → List ℕ
walk next zero p = []
walk next (suc n) p = p ∷ walk next n (next p)

pub walk-eq :
    {next : ℕ → ℕ} {stop p : ℕ} {xs : List ℕ} → Chain next stop p xs → walk next (length xs) p ≡ xs
unfolding walk
walk-eq nil = refl
walk-eq (cons {p} {xs} e out c) = rw (e, walk-eq c)

module _ {next : ℕ → ℕ} where
  -- One more address at the end of a chain.
  pub snoc :
      {p l stop : ℕ} {xs : List ℕ}
      → Chain next l p xs
      → has l xs ≡ false
      → next l ≡ stop
      → Chain next stop p (xs ++ l ∷ [])
  snoc {l} {xs} c out e =
      append c (cons e refl nil)
        λ a i. elim (Bool-cases (a == l)) [ inl h ↦ cc (==→eq a l h) | inr h ↦ rw h ]
    where
      ==→eq : (a b : ℕ) → (a == b) ≡ true → a ≡ b
      ==→eq a b h = ground arith

module _ {next : ℕ → ℕ} {stop : ℕ} where
  -- A chain through no address.
  pub eq_of_nil : {p : ℕ} → Chain next stop p [] → p ≡ stop
  eq_of_nil nil = refl

  -- The first step of a chain.
  pub uncons :
      {p x : ℕ} {xs : List ℕ}
      → Chain next stop p (x ∷ xs)
      → (x ≡ p) × (has x xs ≡ false) × Chain next stop (next p) xs
  uncons (cons {p} {q} {xs} e out c) = (refl, out, rw e c)
