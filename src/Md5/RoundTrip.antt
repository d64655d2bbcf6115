-- ===== src/Md5/RoundTrip.antt =====
-- What base64_decode makes of what base64_encode wrote.
use Prim.Native.Nat.{bit_or}
use alter.Common.{
  length, ℕ, zero, suc, ◌+◌, ◌*◌, ◌/◌, ◌%◌, ◌^◌, ◌<◌, List, [], ◌∷◌, ◌++◌, Bool, true, ◌&&◌, ltb,
  ◌==◌, if◌then◌else◌, ◌≡◌, refl, arith, ap, ◌∙◌,
}
use alter.Md5.Bits.{bit_or-apart, bit_or-digit, bit_or-six}
use alter.Md5.Defs.{
  Md5, base64table, base64_index, shift, digits, characters, base64_encode, decode_uid0,
  decode_uid1, base64_decode,
}

-- The element at an index of a list, 0 behind its end.
unfoldable pub nth : List ℕ → (k : ℕ) → ℕ
nth [] k = 0
nth (x ∷ xs) zero = x
nth (x ∷ xs) (suc k) = nth xs k

-- The table and the index function disagree on the last two digits.
abbrev pub swapped : ℕ → ℕ
swapped d = if d == 62 then 63 else if d == 63 then 62 else d

base64_index-table : (d : ℕ) → d < 64 → base64_index (base64table d) ≡ swapped d
unfolding base64_index base64table
base64_index-table d h = ground arith

-- One more digit is put below the top ones of `u`.
next :
    (u k l d : ℕ) {acc : ℕ}
    → 0 < 2 ^ k
    → 2 ^ l ≡ 2 ^ k * 64
    → acc ≡ u / 2 ^ l * 2 ^ l
    → d ≡ u / 2 ^ k % 64
    → shift d k ≡ d * 2 ^ k
    → bit_or acc (shift d k) ≡ u / 2 ^ k * 2 ^ k
next u k l d {acc} some_place wide top low at =
    bit_or-digit u k l d acc (shift d k) some_place wide top low at

module _ (u v : ℕ) (i : ℕ → ℕ)
    (at : (k : ℕ) → k < 22 → i k ≡ nth (digits (record { uid0 = u; uid1 = v })) k)
    (small : u < 2 ^ 64) (small' : v < 2 ^ 64) where
  -- The digit with the last bits of `u` and the first of `v`.
  middle : i 10 ≡ u % 16 * 4 + v / 2 ^ 62
  unfolding nth digits
  middle =
      let whole : shift u 2 ≡ shift u 2 / 4 * 2 ^ 2 = omega arith in
      let joined =
        rw (← whole) at (bit_or-apart 2 (shift u 2 / 4) (v / 2 ^ 62) (omega (arith, small'))) in
      omega (arith, at 10 (omega arith), joined, small')

  decode_uid0-digits : decode_uid0 i ≡ u
  unfolding decode_uid0 nth digits
  decode_uid0-digits =
      let s0 : shift (i 0) 58 ≡ u / 2 ^ 58 * 2 ^ 58 = omega (arith, at 0 (omega arith), small) in
      let s1 =
        next u 52 58 (i 1) (omega arith) (omega arith) s0 (at 1 (omega arith))
          (omega (arith, at 1 (omega arith))) in
      let s2 =
        next u 46 52 (i 2) (omega arith) (omega arith) s1 (at 2 (omega arith))
          (omega (arith, at 2 (omega arith))) in
      let s3 =
        next u 40 46 (i 3) (omega arith) (omega arith) s2 (at 3 (omega arith))
          (omega (arith, at 3 (omega arith))) in
      let s4 =
        next u 34 40 (i 4) (omega arith) (omega arith) s3 (at 4 (omega arith))
          (omega (arith, at 4 (omega arith))) in
      let s5 =
        next u 28 34 (i 5) (omega arith) (omega arith) s4 (at 5 (omega arith))
          (omega (arith, at 5 (omega arith))) in
      let s6 =
        next u 22 28 (i 6) (omega arith) (omega arith) s5 (at 6 (omega arith))
          (omega (arith, at 6 (omega arith))) in
      let s7 =
        next u 16 22 (i 7) (omega arith) (omega arith) s6 (at 7 (omega arith))
          (omega (arith, at 7 (omega arith))) in
      let s8 =
        next u 10 16 (i 8) (omega arith) (omega arith) s7 (at 8 (omega arith))
          (omega (arith, at 8 (omega arith))) in
      let s9 =
        next u 4 10 (i 9) (omega arith) (omega arith) s8 (at 9 (omega arith))
          (omega (arith, at 9 (omega arith))) in
      let low : i 10 / 4 ≡ u % 2 ^ 4 = omega (arith, middle, small') in
      ap (λ n. bit_or n (i 10 / 4)) s9
      ∙ bit_or-apart 4 (u / 2 ^ 4) (i 10 / 4) (omega (arith, low))
      ∙ omega (arith, low)

  decode_uid1-digits : decode_uid1 i ≡ v
  unfolding decode_uid1 nth digits
  decode_uid1-digits =
      let s10 : shift (i 10) 62 ≡ v / 2 ^ 62 * 2 ^ 62 = omega (arith, middle, small') in
      let s11 =
        next v 56 62 (i 11) (omega arith) (omega arith) s10 (at 11 (omega arith))
          (omega (arith, at 11 (omega arith))) in
      let s12 =
        next v 50 56 (i 12) (omega arith) (omega arith) s11 (at 12 (omega arith))
          (omega (arith, at 12 (omega arith))) in
      let s13 =
        next v 44 50 (i 13) (omega arith) (omega arith) s12 (at 13 (omega arith))
          (omega (arith, at 13 (omega arith))) in
      let s14 =
        next v 38 44 (i 14) (omega arith) (omega arith) s13 (at 14 (omega arith))
          (omega (arith, at 14 (omega arith))) in
      let s15 =
        next v 32 38 (i 15) (omega arith) (omega arith) s14 (at 15 (omega arith))
          (omega (arith, at 15 (omega arith))) in
      let s16 =
        next v 26 32 (i 16) (omega arith) (omega arith) s15 (at 16 (omega arith))
          (omega (arith, at 16 (omega arith))) in
      let s17 =
        next v 20 26 (i 17) (omega arith) (omega arith) s16 (at 17 (omega arith))
          (omega (arith, at 17 (omega arith))) in
      let s18 =
        next v 14 20 (i 18) (omega arith) (omega arith) s17 (at 18 (omega arith))
          (omega (arith, at 18 (omega arith))) in
      let s19 =
        next v 8 14 (i 19) (omega arith) (omega arith) s18 (at 19 (omega arith))
          (omega (arith, at 19 (omega arith))) in
      let s20 =
        next v 2 8 (i 20) (omega arith) (omega arith) s19 (at 20 (omega arith))
          (omega (arith, at 20 (omega arith))) in
      ap (λ n. bit_or n (i 21)) s20 ∙ ap (bit_or (v / 4 * 4)) (at 21 (omega arith)) ∙ bit_or-six v

nth-characters :
    (ds : List ℕ) (rest : List ℕ) (k : ℕ)
    → k < length ds
    → nth (characters ds ++ rest) k ≡ base64table (nth ds k)
unfolding nth characters
nth-characters [] rest k h = absurd (omega arith)
nth-characters (d ∷ ds) rest zero h = refl
nth-characters (d ∷ ds) rest (suc k) h = nth-characters ds rest k (omega arith)

-- No digit is one of the last two.
unfoldable pub are_plain : List ℕ → Bool
are_plain [] = true
are_plain (d ∷ ds) = ltb d 62 && are_plain ds

nth-are_plain : (ds : List ℕ) (k : ℕ) → are_plain ds ≡ true → k < length ds → nth ds k < 62
unfolding nth are_plain
nth-are_plain [] k plain h = absurd (omega arith)
nth-are_plain (d ∷ ds) zero plain h = ground (arith, plain)
nth-are_plain (d ∷ ds) (suc k) plain h =
    nth-are_plain ds k (ground (arith, plain)) (omega (arith, h))

length-digits : (u : Md5) → length (digits u) ≡ 22
unfolding digits
length-digits u = refl

index-digits :
    (u : Md5)
    → are_plain (digits u) ≡ true
    → (k : ℕ) → k < 22
    → base64_index (nth (base64_encode u) k) ≡ nth (digits u) k
unfolding base64_encode
index-digits u plain k h =
    let below : k < length (digits u) = omega (arith, h, length-digits u) in
    let small : nth (digits u) k < 62 = nth-are_plain (digits u) k plain below in
    ap base64_index (nth-characters (digits u) (0 ∷ []) k below)
    ∙ base64_index-table (nth (digits u) k) (omega (arith, small))
    ∙ ground (arith, small)

-- A digest of two numbers of 64 bits with no digit 62 or 63 is what base64_decode makes of the
-- text that base64_encode writes.
pub base64_decode-encode :
    (u : Md5)
    → u.uid0 < 2 ^ 64
    → u.uid1 < 2 ^ 64
    → are_plain (digits u) ≡ true
    → base64_decode (nth (base64_encode u)) ≡ u
unfolding base64_decode
base64_decode-encode u small small' plain =
    let i : ℕ → ℕ = λ k. base64_index (nth (base64_encode u) k) in
    let e = decode_uid0-digits u.uid0 u.uid1 i (index-digits u plain) small small' in
    let e' = decode_uid1-digits u.uid0 u.uid1 i (index-digits u plain) small small' in
    ap (λ n. record { uid0 = n; uid1 = decode_uid1 i }) e
    ∙ ap (λ n. record { uid0 = u.uid0; uid1 = n }) e'
