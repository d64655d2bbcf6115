-- ===== src/Common/Tally.antt =====
-- Sums over the threads of a program.
use Prim.Native.Nat.{ℕ, zero, suc, ◌+◌, ◌≤◌, ◌<◌}
use mathlib.Core.Path.{◌≡◌, refl}
use mathlib.Core.Logic.{◌⊎◌, inl, inr}
use mathlib.Core.Bool.{true, false}
use native.Mathlib.Omega.{arith}
use alter.Common.Tests.{Bool-cases, ◌==◌, update}

-- The sum of a weight over the first `n` threads.
unfoldable pub tally {ℓ} : {A : Type ℓ} → (A → ℕ) → (ℕ → A) → (n : ℕ) → ℕ
tally w phase zero = 0
tally w phase (suc n) = w (phase n) + tally w phase n

pub tally-beyond {ℓ} :
    {A : Type ℓ} (w : A → ℕ) (phase : ℕ → A) (i : ℕ) (x : A) (n : ℕ)
    → n ≤ i
    → tally w (update phase i x) n ≡ tally w phase n
unfolding tally
tally-beyond w phase i x zero h = refl
tally-beyond w phase i x (suc n) h =
    let other : (n == i) ≡ false = ground arith in
    rw (other, tally-beyond w phase i x n (omega arith)) refl

pub tally-update {ℓ} :
    {A : Type ℓ} (w : A → ℕ) (phase : ℕ → A) (i : ℕ) (x : A) (n : ℕ)
    → i < n
    → tally w (update phase i x) n + w (phase i) ≡ tally w phase n + w x
unfolding tally
tally-update w phase i x zero h = absurd (omega arith)
tally-update w phase i x (suc n) h = go (ground arith) (tally-update w phase i x n)
  where
    go :
        (n ≡ i) ⊎ (i < n)
        → (i < n → tally w (update phase i x) n + w (phase i) ≡ tally w phase n + w x)
        → tally w (update phase i x) (suc n) + w (phase i) ≡ tally w phase (suc n) + w x
    go (inl at) rest =
        let here : (n == i) ≡ true = ground (arith, at) in
        let beyond : tally w (update phase i x) n ≡ tally w phase n =
          tally-beyond w phase i x n (omega (arith, at)) in
        rw (here, beyond, ← at) (omega arith)
    go (inr below) rest =
        let other : (n == i) ≡ false = ground (arith, below) in rw other (omega (arith, rest below))

-- One thread goes from a phase to another.
pub tally-move {ℓ} :
    {A : Type ℓ} (w : A → ℕ) (phase : ℕ → A) (i : ℕ) (from to : A) (n : ℕ)
    → i < n
    → phase i ≡ from
    → tally w (update phase i to) n + w from ≡ tally w phase n + w to
tally-move w phase i from to n below at = rw at at (tally-update w phase i to n below)

-- What weighs nothing under `w` for one thread after another weighs nothing in all.
pub tally-none {ℓ} :
    {A : Type ℓ} (w v : A → ℕ) (phase : ℕ → A) (n : ℕ)
    → ((x : A) → w x ≡ 0 → v x ≡ 0)
    → tally w phase n ≡ 0
    → tally v phase n ≡ 0
unfolding tally
tally-none w v phase zero h none = refl
tally-none w v phase (suc n) h none =
    omega (arith, h (phase n) (omega (arith, none)), tally-none w v phase n h (omega (arith, none)))

-- When one thread has all the weight under `w`, it has all under `v`.
pub tally-only {ℓ} :
    {A : Type ℓ} (w v : A → ℕ) (phase : ℕ → A) (i : ℕ) (from to : A) (n : ℕ)
    → ((x : A) → w x ≡ 0 → v x ≡ 0)
    → i < n
    → phase i ≡ from
    → w from ≡ tally w phase n
    → w to ≡ 0
    → tally v phase n ≡ v from
tally-only w v phase i from to n h below at all idle =
    let gone : tally w (update phase i to) n ≡ 0 =
      omega (arith, tally-move w phase i from to n below at, all, idle) in
    omega (
      arith,
      tally-move v phase i from to n below at,
      tally-none w v (update phase i to) n h gone,
      h to idle,
    )

-- Threads that all weigh nothing.
pub tally-zero {ℓ} :
    {A : Type ℓ} (w : A → ℕ) (phase : ℕ → A) (n : ℕ)
    → ((i : ℕ) → w (phase i) ≡ 0)
    → tally w phase n ≡ 0
unfolding tally
tally-zero w phase zero all = refl
tally-zero w phase (suc n) all = omega (arith, all n, tally-zero w phase n all)

-- One thread weighs no more than all.
pub tally-member {ℓ} :
    {A : Type ℓ} (w : A → ℕ) (phase : ℕ → A) (i n : ℕ) → i < n → w (phase i) ≤ tally w phase n
unfolding tally
tally-member w phase i zero h = absurd (omega arith)
tally-member w phase i (suc n) h = elim (Bool-cases (n == i)) [
  | inl e ↦ let same : n ≡ i = ground (arith, e) in rw same (omega arith)
  | inr e ↦ omega (arith, tally-member w phase i n (ground (arith, e, h)))
]
