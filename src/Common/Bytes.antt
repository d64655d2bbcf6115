-- ===== src/Common/Bytes.antt =====
-- Memory as bytes: runs of bytes, and 32-bit fields with the lowest byte first.
use Prim.Native.Nat.{ℕ, zero, suc, ◌+◌, ◌*◌, ◌/◌, ◌%◌, ◌^◌, ◌≤◌, ◌<◌}
use mathlib.Core.Path.{◌≡◌, refl, ◌∙◌}
use mathlib.Core.Logic.{◌⊎◌, inl, inr}
use mathlib.Core.List.{List, [], ◌∷◌, ◌++◌}
use native.Mathlib.Omega.{arith}
use alter.Common.Tests.{◌==◌, update, Bool-cases}
use alter.Common.Lists.{length}

-- `n` bytes from the address `a` on.
unfoldable pub read : (ℕ → ℕ) → (a : ℕ) → ℕ → List ℕ
read m a zero = []
read m a (suc n) = m a ∷ read m (a + 1) n

unfoldable pub write : (ℕ → ℕ) → (a : ℕ) → List ℕ → ℕ → ℕ
write m a [] = m
write m a (b ∷ bs) = write (update m a b) (a + 1) bs

unfoldable pub get_u32 : (ℕ → ℕ) → (a : ℕ) → ℕ
get_u32 m a = m a + m (a + 1) * 2 ^ 8 + m (a + 2) * 2 ^ 16 + m (a + 3) * 2 ^ 24

unfoldable pub set_u32 : (ℕ → ℕ) → (a v : ℕ) → ℕ → ℕ
set_u32 m a v =
    let m1 = update m a (v % 2 ^ 8) in
    let m2 = update m1 (a + 1) (v / 2 ^ 8 % 2 ^ 8) in
    let m3 = update m2 (a + 2) (v / 2 ^ 16 % 2 ^ 8) in update m3 (a + 3) (v / 2 ^ 24 % 2 ^ 8)

pub get_u32-set_u32 : (m : ℕ → ℕ) (a v : ℕ) → get_u32 (set_u32 m a v) a ≡ v % 2 ^ 32
unfolding get_u32 set_u32
get_u32-set_u32 m a v = ground arith

pub set_u32-other : (m : ℕ → ℕ) (a v c : ℕ) → (c < a) ⊎ (a + 4 ≤ c) → set_u32 m a v c ≡ m c
unfolding set_u32
set_u32-other m a v c h = ground arith

pub write-other :
    (m : ℕ → ℕ) (a : ℕ) (bs : List ℕ) (c : ℕ) → (c < a) ⊎ (a + length bs ≤ c) → write m a bs c ≡ m c
unfolding write
write-other m a [] c h = refl
write-other m a (b ∷ bs) c h = ground (arith, write-other (update m a b) (a + 1) bs c)

pub read-same :
    (m m' : ℕ → ℕ) (a n : ℕ) → ((c : ℕ) → a ≤ c → c < a + n → m c ≡ m' c) → read m a n ≡ read m' a n
unfolding read
read-same m m' a zero h = refl
read-same m m' a (suc n) h =
    let rest = read-same m m' (a + 1) n λ c l u. h c (omega arith) (omega arith) in
    rw (h a (omega arith) (omega arith), rest)

pub read-write : (m : ℕ → ℕ) (a : ℕ) (bs : List ℕ) → read (write m a bs) a (length bs) ≡ bs
unfolding read write
read-write m a [] = refl
read-write m a (b ∷ bs) =
    let here : write (update m a b) (a + 1) bs a ≡ b =
      write-other (update m a b) (a + 1) bs a (inl (omega arith)) ∙ ground arith in
    rw (here, read-write (update m a b) (a + 1) bs)

pub length-read : (m : ℕ → ℕ) (a n : ℕ) → length (read m a n) ≡ n
unfolding read
length-read m a zero = refl
length-read m a (suc n) = omega (arith, length-read m (a + 1) n)

pub read-append : (m : ℕ → ℕ) (a n k : ℕ) → read m a (n + k) ≡ read m a n ++ read m (a + n) k
unfolding read
read-append m a zero k =
    let e : zero + k ≡ k = omega arith in let f : a + zero ≡ a = omega arith in rw (e, f)
read-append m a (suc n) k =
    let e : suc n + k ≡ suc (n + k) = omega arith in
    let f : a + 1 + n ≡ a + suc n = omega arith in rw (e, ← f, read-append m (a + 1) n k)

-- Bytes that come in two parts.
pub write-append :
    (m : ℕ → ℕ) (a : ℕ) (bs cs : List ℕ)
    → write m a (bs ++ cs) ≡ write (write m a bs) (a + length bs) cs
unfolding write
write-append m a [] cs = let e : a + zero ≡ a = omega arith in rw e
write-append m a (b ∷ bs) cs =
    let e : a + 1 + length bs ≡ a + suc (length bs) = omega arith in
    rw (← e, write-append (update m a b) (a + 1) bs cs)

-- A run of bytes put at its own place in another memory.
pub write-read : (m m' : ℕ → ℕ) (a n c : ℕ) → a ≤ c → c < a + n → write m a (read m' a n) c ≡ m' c
unfolding read write
write-read m m' a zero c l u = absurd (omega arith)
write-read m m' a (suc n) c l u = elim (Bool-cases (c == a)) [
  | inl is ↦
      let at_a : c ≡ a = ground arith in
      rw at_a (
        write-other (update m a (m' a)) (a + 1) (read m' (a + 1) n) a (inl (omega arith))
        ∙ ground arith)
  | inr past ↦ write-read (update m a (m' a)) m' (a + 1) n c (ground arith) (omega arith)
]

pub get_u32-same :
    (m m' : ℕ → ℕ) (a : ℕ) → ((c : ℕ) → a ≤ c → c < a + 4 → m c ≡ m' c) → get_u32 m a ≡ get_u32 m' a
unfolding get_u32
get_u32-same m m' a h = omega (
  arith,
  h a (omega arith) (omega arith),
  h (a + 1) (omega arith) (omega arith),
  h (a + 2) (omega arith) (omega arith),
  h (a + 3) (omega arith) (omega arith),
)

-- A copy behind what has been copied already.
pub read-write_on :
    (m m' : ℕ → ℕ) (a b n k : ℕ)
    → read m a n ≡ read m' b n
    → read (write m (a + n) (read m' (b + n) k)) a (n + k) ≡ read m' b (n + k)
read-write_on m m' a b n k e =
    let bs = read m' (b + n) k in
    let before : read (write m (a + n) bs) a n ≡ read m a n =
      read-same (write m (a + n) bs) m a n
        λ c l u. write-other m (a + n) bs c (inl (omega arith)) in
    let behind : read (write m (a + n) bs) (a + n) k ≡ bs =
      rw (length-read m' (b + n) k) at (read-write m (a + n) bs) in
    rw (read-append (write m (a + n) bs) a n k, read-append m' b n k, before, behind, e)
