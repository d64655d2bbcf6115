-- ===== src/Md5/Defs.antt =====
-- The class frl_md5: `uid` is the digest as two numbers of 64 bits.
use Prim.Native.Nat.{bit_or}
use alter.Common.{
  ℕ, ◌+◌, ◌-◌, ◌*◌, ◌/◌, ◌%◌, ◌^◌, List, [], ◌∷◌, ◌++◌, Bool, ◌&&◌, ◌||◌, not, ltb, leb, ◌==◌,
  if◌then◌else◌,
}

pub record Md5 : Type 0 where
  pub uid0 : ℕ
  pub uid1 : ℕ

-- `base64table`: "A" to "Z", "a" to "z", "0" to "9", "-" and "_".
unfoldable pub base64table : ℕ → ℕ
base64table n =
    if ltb n 26
    then 65 + n
    else if ltb n 52
    then 97 + (n - 26)
    else if ltb n 62
    then 48 + (n - 52)
    else if n == 62
    then 45
    else 95

-- `base64_index`
unfoldable pub base64_index : ℕ → ℕ
base64_index x =
    if x == 95
    then 62
    else if leb 97 x
    then x - 97 + 26
    else if leb 65 x
    then x - 65
    else if leb 48 x
    then x - 48 + 52
    else 63

-- `n << k` in 64 bits, and `n & 0x3f`.
abbrev pub shift : ℕ → ℕ → ℕ
shift n k = n * 2 ^ k % 2 ^ 64

abbrev pub low_six : ℕ → ℕ
low_six n = n % 2 ^ 6

-- The indices that base64_encode looks up, for `q[0]` to `q[21]`.
unfoldable pub digits : Md5 → List ℕ
digits u =
    low_six (u.uid0 / 2 ^ 58)
    ∷ low_six (u.uid0 / 2 ^ 52)
    ∷ low_six (u.uid0 / 2 ^ 46)
    ∷ low_six (u.uid0 / 2 ^ 40)
    ∷ low_six (u.uid0 / 2 ^ 34)
    ∷ low_six (u.uid0 / 2 ^ 28)
    ∷ low_six (u.uid0 / 2 ^ 22)
    ∷ low_six (u.uid0 / 2 ^ 16)
    ∷ low_six (u.uid0 / 2 ^ 10)
    ∷ low_six (u.uid0 / 2 ^ 4)
    ∷ low_six (bit_or (shift u.uid0 2) (u.uid1 / 2 ^ 62))
    ∷ low_six (u.uid1 / 2 ^ 56)
    ∷ low_six (u.uid1 / 2 ^ 50)
    ∷ low_six (u.uid1 / 2 ^ 44)
    ∷ low_six (u.uid1 / 2 ^ 38)
    ∷ low_six (u.uid1 / 2 ^ 32)
    ∷ low_six (u.uid1 / 2 ^ 26)
    ∷ low_six (u.uid1 / 2 ^ 20)
    ∷ low_six (u.uid1 / 2 ^ 14)
    ∷ low_six (u.uid1 / 2 ^ 8)
    ∷ low_six (u.uid1 / 2 ^ 2)
    ∷ low_six u.uid1
    ∷ []

unfoldable pub characters : List ℕ → List ℕ
unfolding base64table
characters [] = []
characters (d ∷ ds) = base64table d ∷ characters ds

-- `base64_encode`: what it writes to `q`.
unfoldable pub base64_encode : Md5 → List ℕ
unfolding digits characters
base64_encode u = characters (digits u) ++ 0 ∷ []

-- `base64_decode`
unfoldable pub decode_uid0 : (i : ℕ → ℕ) → ℕ
decode_uid0 i =
    bit_or
      (bit_or
        (bit_or
          (bit_or
            (bit_or
              (bit_or
                (bit_or
                  (bit_or (bit_or (bit_or (shift (i 0) 58) (shift (i 1) 52)) (shift (i 2) 46))
                    (shift (i 3) 40))
                  (shift (i 4) 34))
                (shift (i 5) 28))
              (shift (i 6) 22))
            (shift (i 7) 16))
          (shift (i 8) 10))
        (shift (i 9) 4))
      (i 10 / 2 ^ 2)

unfoldable pub decode_uid1 : (i : ℕ → ℕ) → ℕ
decode_uid1 i =
    bit_or
      (bit_or
        (bit_or
          (bit_or
            (bit_or
              (bit_or
                (bit_or
                  (bit_or
                    (bit_or (bit_or (bit_or (shift (i 10) 62) (shift (i 11) 56)) (shift (i 12) 50))
                      (shift (i 13) 44))
                    (shift (i 14) 38))
                  (shift (i 15) 32))
                (shift (i 16) 26))
              (shift (i 17) 20))
            (shift (i 18) 14))
          (shift (i 19) 8))
        (shift (i 20) 2))
      (i 21)

unfoldable pub base64_decode : (x : ℕ → ℕ) → Md5
unfolding base64_index decode_uid0 decode_uid1
base64_decode x =
    let i : ℕ → ℕ = λ k. base64_index (x k) in record { uid0 = decode_uid0 i; uid1 = decode_uid1 i }

-- `operator==`, `operator!=`, `operator>` and so on.
unfoldable pub equals : Md5 → Md5 → Bool
equals x y = (x.uid0 == y.uid0) && (x.uid1 == y.uid1)

unfoldable pub differs : Md5 → Md5 → Bool
differs x y = not (x.uid0 == y.uid0) || not (x.uid1 == y.uid1)

unfoldable pub is_greater : Md5 → Md5 → Bool
is_greater x y = ltb y.uid0 x.uid0 || (x.uid0 == y.uid0) && ltb y.uid1 x.uid1

unfoldable pub is_at_most : Md5 → Md5 → Bool
is_at_most x y = leb x.uid0 y.uid0 || (x.uid0 == y.uid0) && leb x.uid1 y.uid1

unfoldable pub is_less : Md5 → Md5 → Bool
is_less x y = ltb x.uid0 y.uid0 || (x.uid0 == y.uid0) && ltb x.uid1 y.uid1

unfoldable pub is_at_least : Md5 → Md5 → Bool
is_at_least x y = leb y.uid0 x.uid0 || (x.uid0 == y.uid0) && leb y.uid1 x.uid1
