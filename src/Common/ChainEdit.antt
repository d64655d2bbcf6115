-- ===== src/Common/ChainEdit.antt =====
-- Putting an address into a chain and taking one out.
use Prim.Native.Nat.{ℕ}
use mathlib.Core.Path.{◌≡◌, refl, sym, ◌∙◌}
use mathlib.Core.Logic.{◌≢◌, inl, inr}
use mathlib.Core.Bool.{true, false, ◌||◌}
use mathlib.Core.List.{List, ◌∷◌}
use native.Mathlib.Omega.{arith}
use alter.Common.Tests.{◌==◌, Bool-cases}
use alter.Common.Lists.{has, insert_after, has-insert_after, remove_one, has-remove_one}
use alter.Common.Chain
use alter.Common.Chain.{Chain, nil, cons}

module _ {next next' : ℕ → ℕ} {stop : ℕ} (e n : ℕ) (at_e : next' e ≡ n)
    (at_n : next' n ≡ next e) where
  -- The address `n` is put behind `e`.
  pub Chain-insert_after :
      {p : ℕ} {xs : List ℕ}
      → Chain next stop p xs
      → has n xs ≡ false
      → ((a : ℕ) → has a xs ≡ true → a ≢ e → next' a ≡ next a)
      → Chain next' stop p (insert_after e n xs)
  unfolding insert_after
  Chain-insert_after nil out same = nil
  Chain-insert_after (cons {p} {q} {xs} step fresh c) out same = elim (Bool-cases (p == e)) [
    | inl here ↦ rw here (
        cons (ground (arith, at_e)) (ground arith) (
          cons (ground (arith, at_n)) (ground (arith, out))
            (Chain.frame next' c λ a i. same a (ground arith) (ground arith))))
    | inr on ↦ rw on (
        cons (ground (arith, same p)) (ground (arith, has-insert_after p e n xs, fresh, out))
          (Chain-insert_after c (ground arith) λ a i ne. same a (ground arith) ne))
  ]

pub not-has-remove_one :
    (e p : ℕ) (xs : List ℕ) → has p xs ≡ false → has p (remove_one e xs) ≡ false
not-has-remove_one e p xs out = elim (Bool-cases (has p (remove_one e xs))) [
  | inl i ↦ absurd (cc (has-remove_one p e xs i))
  | inr o ↦ o
]

module _ {next : ℕ → ℕ} {stop : ℕ} where
  -- From an address of a chain the next step leads to another one or to the end.
  next_inside :
      (b : ℕ) {p : ℕ} {xs : List ℕ}
      → Chain next stop p xs
      → has b xs ≡ true
      → (has (next b) xs || (next b == stop)) ≡ true
  next_inside b nil i = absurd (cc)
  next_inside b (cons {p} {xs} step fresh nil) i = ground arith
  next_inside b (cons {p} step fresh (cons {p = q} {xs} step' fresh' c)) i =
      ground (arith, next_inside b (cons step' fresh' c))

  -- No step of a chain leads back to its start.
  no_return :
      (b : ℕ) {p : ℕ} {xs : List ℕ} → Chain next stop p xs → has b xs ≡ true → p ≢ stop → next b ≢ p
  no_return b nil i ne back = absurd (cc)
  no_return b (cons {p} step fresh nil) i ne back = ground (arith, ne)
  no_return b (cons {p} step fresh (cons {p = q} {xs} step' fresh' c)) i ne back =
      ground (arith, ne, next_inside b (cons step' fresh' c))

  -- An address that is taken out of a chain is not left in it.
  pub not-has-remove_one_self :
      (e : ℕ) {p : ℕ} {xs : List ℕ} → Chain next stop p xs → has e (remove_one e xs) ≡ false
  unfolding remove_one
  not-has-remove_one_self e nil = refl
  not-has-remove_one_self e (cons {p} {xs} step fresh c) =
      ground (arith, not-has-remove_one_self e c)

  -- No address of a chain leads to itself.
  pub no_loop :
      (b : ℕ) {p : ℕ} {xs : List ℕ}
      → Chain next stop p xs
      → has b xs ≡ true
      → has stop xs ≡ false
      → next b ≢ b
  no_loop b nil i out back = absurd (cc)
  no_loop b (cons {p} step fresh nil) i out back = ground arith
  no_loop b (cons {p} step fresh (cons {p = q} {xs} step' fresh' c)) i out back =
      ground (arith, no_loop b (cons step' fresh' c))

module _ {next next' : ℕ → ℕ} {stop : ℕ} (b e : ℕ) (before : next b ≡ e) (ne_stop : e ≢ stop)
    (joined : next' b ≡ next e) where
  delete_here :
      {q : ℕ} {xs : List ℕ}
      → Chain next stop q xs
      → q ≡ e
      → has b xs ≡ false
      → ((a : ℕ) → has a xs ≡ true → a ≢ b → next' a ≡ next a)
      → Chain next' stop b (b ∷ remove_one e xs)
  unfolding remove_one
  delete_here nil is out same = absurd (ne_stop (sym is))
  delete_here (cons {p} {q} {xs} step fresh c) is out same =
      let hit : (e == p) ≡ true = ground arith in
      rw hit (
        cons (ground (arith, joined, step)) (ground arith)
          (Chain.frame next' c λ a i. same a (ground arith) (ground arith)))

  -- The address `e` behind `b` is taken out.
  pub Chain-remove_one :
      {p : ℕ} {xs : List ℕ}
      → Chain next stop p xs
      → has b xs ≡ true
      → p ≢ e
      → ((a : ℕ) → has a xs ≡ true → a ≢ b → next' a ≡ next a)
      → Chain next' stop p (remove_one e xs)
  unfolding remove_one
  Chain-remove_one nil i ne same = absurd (cc)
  Chain-remove_one (cons {p} {q} {xs} step fresh c) i ne same =
      let miss : (e == p) ≡ false = ground arith in
      rw miss (elim (Bool-cases (p == b)) [
        | inl here ↦
            let here' : p ≡ b = ground arith in
            rw (here')
              (delete_here c (ground arith) (ground arith) λ a j k. same a (ground arith) k)
        | inr on ↦ cons (ground (arith, same p)) (not-has-remove_one e p xs fresh) (
            Chain-remove_one c (ground arith)
              (λ is. no_return b c (ground arith) (ground (arith, ne_stop)) (before ∙ sym is))
              λ a j k. same a (ground arith) k)
      ])
