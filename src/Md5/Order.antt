-- ===== src/Md5/Order.antt =====
-- The comparison operators of src/lib/frl_util_md5.h against the order of numbers of 128 bits.
use alter.Common.{ℕ, ◌+◌, ◌*◌, ◌^◌, ◌<◌, not, ltb, leb, ◌==◌, ◌≡◌, arith}
use alter.Md5.Defs.{Md5, equals, differs, is_greater, is_at_most, is_less, is_at_least}

abbrev pub value : Md5 → ℕ
value x = x.uid0 * 2 ^ 64 + x.uid1

-- On digests of two numbers of 64 bits, ==, !=, < and > compare as on the number of 128 bits,
-- but <= and >= compare the first halves only.
pub operators-Compare :
    (x y : Md5)
    → x.uid1 < 2 ^ 64
    → y.uid1 < 2 ^ 64
    → (equals x y ≡ (value x == value y))
      × (differs x y ≡ not (value x == value y))
      × (is_less x y ≡ ltb (value x) (value y))
      × (is_greater x y ≡ ltb (value y) (value x))
      × (is_at_most x y ≡ leb x.uid0 y.uid0)
      × (is_at_least x y ≡ leb y.uid0 x.uid0)
unfolding equals differs is_less is_greater is_at_most is_at_least
operators-Compare x y h h' =
    (ground arith, ground arith, ground arith, ground arith, ground arith, ground arith)
