-- ===== src/Md5/Bits.antt =====
-- Bits that do not overlap: `|` is then `+`.
use Prim.Native.Nat.{ℕ, zero, suc, ◌+◌, ◌*◌, ◌/◌, ◌%◌, ◌^◌, ◌≤◌, ◌<◌, bit_or}
use alter.Common.Bits.{bit_or-halves, bit_or-zero}
use mathlib.Core.Path.{◌≡◌, sym, ap, ◌∙◌}
use native.Mathlib.Nat.{
  mul_assoc, mul_comm, add-mul, mul-le-mul_right, div-div-eq-div-mul, div-add-mod',
}
use native.Mathlib.Omega.{arith}

pub bit_or-apart : (k a b : ℕ) → b < 2 ^ k → bit_or (a * 2 ^ k) b ≡ a * 2 ^ k + b
bit_or-apart zero a b h =
    let empty : b ≡ 0 = omega (arith, h) in
    let all : a * 2 ^ zero ≡ a = omega arith in
    rw (empty, all) (bit_or-zero a a (omega arith) ∙ omega arith)
bit_or-apart (suc k) a b h =
    let double : 2 ^ suc k ≡ 2 ^ k * 2 = omega arith in
    let twice : a * 2 ^ suc k ≡ a * 2 ^ k * 2 = rw double (sym (mul_assoc a (2 ^ k) 2)) in
    let half : a * 2 ^ suc k / 2 ≡ a * 2 ^ k = omega (arith, twice) in
    let rest = bit_or-apart k a (b / 2) (omega (arith, h)) in
    let whole = bit_or-halves (a * 2 ^ suc k) b in omega (arith, twice, rest, rw half at whole)

-- A digit times its place is smaller than the next place.
place : (m t : ℕ) → 0 < t → m % 64 * t < t * 64
place m t h =
    let most : (m % 64 + 1) * t ≤ 64 * t = mul-le-mul_right t (omega arith) in
    omega (arith, add-mul (m % 64) 1 t, mul_comm 64 t, most)

join : (m t : ℕ) → m / 64 * (t * 64) + m % 64 * t ≡ m * t
join m t =
    let parts : (m / 64 * 64 + m % 64) * t ≡ m / 64 * 64 * t + m % 64 * t =
      add-mul (m / 64 * 64) (m % 64) t in
    let swap : m / 64 * (64 * t) ≡ m / 64 * (t * 64) = ap (λ n. m / 64 * n) (mul_comm 64 t) in
    omega (arith, rw (div-add-mod' m 64) at parts, mul_assoc (m / 64) 64 t, swap)

-- The next digit of `u` below its top ones, which end at the place `l`.
pub bit_or-digit :
    (u k l d acc b : ℕ)
    → 0 < 2 ^ k
    → 2 ^ l ≡ 2 ^ k * 64
    → acc ≡ u / 2 ^ l * 2 ^ l
    → d ≡ u / 2 ^ k % 64
    → b ≡ d * 2 ^ k
    → bit_or acc b ≡ u / 2 ^ k * 2 ^ k
bit_or-digit u k l d acc b some_place wide top low at =
    let m = u / 2 ^ k in
    let higher : u / 2 ^ l ≡ m / 64 =
      ap (λ n. u / n) wide ∙ sym (div-div-eq-div-mul u (2 ^ k) 64) in
    let here : b ≡ m % 64 * 2 ^ k = at ∙ ap (λ n. n * 2 ^ k) low in
    let above : acc ≡ m / 64 * 2 ^ l = top ∙ ap (λ n. n * 2 ^ l) higher in
    rw (above, here)
      (bit_or-apart l (m / 64) (m % 64 * 2 ^ k) (omega (arith, place m (2 ^ k) some_place, wide))
        ∙ ap (λ n. m / 64 * n + m % 64 * 2 ^ k) wide
        ∙ join m (2 ^ k))

-- The low digits of a number, once more.
again :
    (w k : ℕ)
    → w % (k * 2) / 2 ≡ w / 2 % k
    → w % (k * 2) % 2 ≡ w % 2
    → bit_or (w / 2) (w / 2 % k) ≡ w / 2
    → bit_or w (w % (k * 2)) ≡ w
again w k high low rest = omega (arith, rw high at (bit_or-halves w (w % (k * 2))), rest, low)

bit_or-low : (w : ℕ) → bit_or w (w % 16) ≡ w
bit_or-low w = again w 8 (omega arith) (omega arith) (
    again (w / 2) 4 (omega arith) (omega arith) (
      again (w / 2 / 2) 2 (omega arith) (omega arith) (
        again (w / 2 / 2 / 2) 1 (omega arith) (omega arith) (
          let none : w / 2 / 2 / 2 / 2 % 1 ≡ 0 = omega arith in
          rw none (bit_or-zero (w / 2 / 2 / 2 / 2) (w / 2 / 2 / 2 / 2) (omega arith))))))

pub bit_or-six : (v : ℕ) → bit_or (v / 4 * 4) (v % 64) ≡ v
bit_or-six v =
    let first = rw (quarter (v / 4)) at (bit_or-halves (v / 4 * 4) (v % 64)) in
    let second = rw (half (v / 4), low) at (bit_or-halves (v / 4 * 2) (v % 64 / 2)) in
    omega (arith, first, second, bit_or-low (v / 4))
  where
    quarter : (m : ℕ) → m * 4 / 2 ≡ m * 2
    quarter m = omega arith

    half : (m : ℕ) → m * 2 / 2 ≡ m
    half m = omega arith

    low : v % 64 / 2 / 2 ≡ v / 4 % 16
    low = omega arith
