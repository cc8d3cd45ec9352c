-- ===== src/Base64/Tests.antt =====
-- Runs of the codec, after tools/record_test.c, and the theorems at concrete inputs.
use mathlib.Core.List.{cons-ne-nil}
use roman_firmware.Prelude.{◌≤◌, ◌≡◌, refl, none, some, codes, arith, length, AreBytes}
use roman_firmware.Base64.{
  b64_decode, base64_encode, decode_loop, decode_quartet, read_char, b64_value, triple,
  quartet_bytes,
}
use roman_firmware.Base64.RoundTrip.{decode-encode}
use roman_firmware.Base64.Canonical.{encode-decode, decode_bounds}

decode_Ma : b64_decode (codes "TWE=") 3 ≡ some (codes "Ma")
unfolding b64_decode decode_loop decode_quartet read_char b64_value triple quartet_bytes
decode_Ma = refl

decode_not_canonical : b64_decode (codes "QR==") 3 ≡ none
unfolding b64_decode decode_loop decode_quartet read_char b64_value triple quartet_bytes
decode_not_canonical = refl

decode_too_long : b64_decode (codes "TWFu") 2 ≡ none
unfolding b64_decode decode_loop decode_quartet read_char b64_value triple quartet_bytes
decode_too_long = refl

encode_Ma : base64_encode (codes "Ma") ≡ codes "TWE="
unfolding base64_encode
encode_Ma = refl

decode-encode_example : b64_decode (base64_encode (codes "Ma")) 3 ≡ some (codes "Ma")
decode-encode_example = decode-encode (codes "Ma") 3 (omega arith) (cons-ne-nil _ _) (omega arith)

encode-decode_example : base64_encode (codes "Ma") ≡ codes "TWE="
encode-decode_example = encode-decode (codes "TWE=") 3 (codes "Ma") decode_Ma

decode_bounds_example : (length (codes "Ma") ≤ 3) × AreBytes (codes "Ma")
decode_bounds_example = decode_bounds (codes "TWE=") 3 (codes "Ma") decode_Ma
