-- ===== src/Base64.antt =====
-- Base64 as the board reads and writes it: `b64_value` and `record_b64_decode` of record.c, and
-- `base64_encode` of http_server.c.
--
-- The decoder's result -1 is `none`; otherwise the model returns the bytes out[0 .. o). What a failed
-- call leaves in `out` is not modelled: every caller gives up on -1.
mod Alphabet
pub mod RoundTrip
mod Quartet
pub mod Canonical
pub mod Tests
use Prim.Native.Nat.{bit_or, bit_and}
use roman_firmware.Prelude.{
  ℕ, ◌+◌, ◌-◌, ◌*◌, ◌/◌, ◌%◌, ◌^◌, Bool, true, false, not, ◌&&◌, ◌||◌, Option, none, some, List, [],
  ◌∷◌, ◌++◌, Bytes, codes, length, get_or, leb, ltb, ◌==◌, if◌then◌else◌, ◌>>=◌,
}

unfoldable pub b64_value : ℕ → Option ℕ
b64_value c =
    if leb b'A' c && leb c b'Z'
    then some (c - b'A')
    else if leb b'a' c && leb c b'z'
    then some (c - b'a' + 26)
    else if leb b'0' c && leb c b'9'
    then some (c - b'0' + 52)
    else if c == b'+'
    then some 62
    else if c == b'/'
    then some 63
    else none

-- One round of the inner loop at position `k`: the value `v[k]` and the padding so far. `last` says
-- that the quartet is the final one (i + 4 == in_len).
unfoldable pub read_char : ℕ → Bool → ℕ → ℕ → Option (ℕ × ℕ)
read_char k last c pad =
    if c == b'='
    then (if ltb k 2 || not last then none else some (0, pad + 1))
    else if not (pad == 0)
    then none
    else do v ← b64_value c; some (v, pad)

-- The four values side by side: the fields do not overlap, so `|` is `+`.
unfoldable pub triple : ℕ → ℕ → ℕ → ℕ → ℕ
triple v0 v1 v2 v3 = v0 * 2 ^ 18 + v1 * 2 ^ 12 + v2 * 2 ^ 6 + v3

-- The bytes that a quartet contributes: `take` = 3 - pad of them.
unfoldable pub quartet_bytes : ℕ → ℕ → Bytes
quartet_bytes t pad =
    let b0 = t / 2 ^ 16 % 256 in
    let b1 = t / 2 ^ 8 % 256 in
    let b2 = t % 256 in
    if pad == 0 then b0 ∷ b1 ∷ b2 ∷ [] else if pad == 1 then b0 ∷ b1 ∷ [] else b0 ∷ []

-- The body of the outer loop: four characters, the two tests of the canonical form, the bytes.
unfoldable pub decode_quartet : Bool → ℕ → ℕ → ℕ → ℕ → Option Bytes
decode_quartet last a b c d = do
  (v0, pad0) ← read_char 0 last a 0
  (v1, pad1) ← read_char 1 last b pad0
  (v2, pad2) ← read_char 2 last c pad1
  (v3, pad) ← read_char 3 last d pad2
  if pad == 1 && not (v2 % 4 == 0)
      then none
      else if pad == 2 && not (v1 % 16 == 0)
      then none
      else some (quartet_bytes (triple v0 v1 v2 v3) pad)

unfoldable pub is_empty : Bytes → Bool
is_empty [] = true
is_empty (c ∷ s) = false

-- The outer loop from output position `o` on. The caller has checked that the length is a multiple
-- of four, so nothing is left over at the end.
unfoldable pub decode_loop : ℕ → ℕ → Bytes → Option Bytes
unfolding is_empty
decode_loop cap o (a ∷ b ∷ c ∷ d ∷ rest) = do
  bytes ← decode_quartet (is_empty rest) a b c d
  let o' = o + length bytes
  if ltb cap o' then none else (do tail ← decode_loop cap o' rest; some (bytes ++ tail))
decode_loop cap o _ = some []

unfoldable pub b64_decode : Bytes → ℕ → Option Bytes
b64_decode s cap = if length s == 0 || not (length s % 4 == 0) then none else decode_loop cap 0 s

-- `record_b64_decode(in, out, cap)`, where `in` may be NULL (`out` never is).
unfoldable pub record_b64_decode : Option Bytes → ℕ → Option Bytes
unfolding b64_decode
record_b64_decode none cap = none
record_b64_decode (some s) cap = b64_decode s cap

-- BASE64[]
abbrev pub alphabet : Bytes
alphabet = codes "ABCDEFGHIJKLMNOPQRSTUVWXYZabcdefghijklmnopqrstuvwxyz0123456789+/"

unfoldable pub symbol : ℕ → ℕ
symbol v = get_or alphabet (v % 64) 0

-- One round of the loop of `base64_encode` on the bytes that are left, at most three of them.
unfoldable pub base64_encode : Bytes → Bytes
unfolding symbol
base64_encode [] = []
base64_encode (x ∷ []) =
    let b = x * 2 ^ 16 in symbol (b / 2 ^ 18) ∷ symbol (b / 2 ^ 12) ∷ b'=' ∷ b'=' ∷ []
base64_encode (x ∷ y ∷ []) =
    let b = x * 2 ^ 16 + y * 2 ^ 8 in
    symbol (b / 2 ^ 18) ∷ symbol (b / 2 ^ 12) ∷ symbol (b / 2 ^ 6) ∷ b'=' ∷ []
base64_encode (x ∷ y ∷ z ∷ rest) =
    let b = x * 2 ^ 16 + y * 2 ^ 8 + z in
    symbol (b / 2 ^ 18) ∷ symbol (b / 2 ^ 12) ∷ symbol (b / 2 ^ 6) ∷ symbol b ∷ base64_encode rest
