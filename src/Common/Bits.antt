-- ===== src/Common/Bits.antt =====
-- The digits of `a | b`.
use Prim.Native.Nat.{ℕ, zero, suc, ◌+◌, ◌*◌, ◌/◌, ◌%◌, ◌≤◌, max, bit_or, digits, bit_or-bitwise}
use mathlib.Core.Path.{◌≡◌, refl}
use native.Mathlib.Omega.{arith}

-- The digits of `a | b`, `k` of them.
abbrev or_of : (k a b : ℕ) → ℕ
or_of k a b = digits (λ b. b) max k a b

or_of-enough : (k a b : ℕ) → a ≤ k → or_of k a b ≡ or_of a a b
or_of-enough k a b h = both k a a b h (omega arith)
  where
    both : (k l a b : ℕ) → a ≤ k → a ≤ l → or_of k a b ≡ or_of l a b
    both zero zero a b h h' = refl
    both zero (suc l) zero b h h' = refl
    both zero (suc l) (suc a) b h h' = absurd (omega arith)
    both (suc k) zero zero b h h' = refl
    both (suc k) zero (suc a) b h h' = absurd (omega arith)
    both (suc k) (suc l) zero b h h' = refl
    both (suc k) (suc l) (suc a) b h h' =
        omega (arith, both k l (suc a / 2) (b / 2) (omega arith) (omega arith))

zero-bit_or : (b : ℕ) → bit_or 0 b ≡ b
zero-bit_or b = bit_or-bitwise 0 b

-- The lowest digit apart.
pub bit_or-halves : (a b : ℕ) → bit_or a b ≡ bit_or (a / 2) (b / 2) * 2 + max (a % 2) (b % 2)
bit_or-halves zero b = omega (arith, zero-bit_or b, zero-bit_or (b / 2))
bit_or-halves (suc a) b = omega (
  arith,
  bit_or-bitwise (suc a) b,
  bit_or-bitwise (suc a / 2) (b / 2),
  or_of-enough a (suc a / 2) (b / 2) (omega arith),
)

pub bit_or-zero : (k a : ℕ) → a ≤ k → bit_or a 0 ≡ a
bit_or-zero k zero h = zero-bit_or 0
bit_or-zero zero (suc a) h = absurd (omega arith)
bit_or-zero (suc k) (suc a) h =
    omega (arith, bit_or-halves (suc a) 0, bit_or-zero k (suc a / 2) (omega arith))
