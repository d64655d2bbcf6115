-- ===== src/Examples/Digests.antt =====
-- Digests as text and in order.
use alter.Common.{◌≡◌, refl, arith}
use alter.Md5.Defs.{Md5, digits, base64_encode, base64_decode}
use alter.Md5.RoundTrip.{nth, are_plain, base64_decode-encode}

abbrev small : Md5
small = record { uid0 = 0; uid1 = 5 }

abbrev large : Md5
large = record { uid0 = 0; uid1 = 7 }

base64_decode-encode_example : base64_decode (nth (base64_encode small)) ≡ small
unfolding digits are_plain
base64_decode-encode_example = base64_decode-encode small (omega arith) (omega arith) refl
