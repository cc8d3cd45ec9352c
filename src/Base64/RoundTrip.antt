-- ===== src/Base64/RoundTrip.antt =====
-- Encoding and decoding undo each other: `base64_encode` of http_server.c against
-- `record_b64_decode` of record.c.
use roman_firmware.Prelude.{
  ℕ, ◌+◌, ◌*◌, ◌/◌, ◌%◌, ◌^◌, ◌≤◌, ◌<◌, ◌≡◌, ◌≢◌, refl, Bool, true, some, [], ◌∷◌, arith, Bytes,
  AreBytes, length, le→ltb,
}
use roman_firmware.Base64.{
  read_char, triple, quartet_bytes, decode_quartet, is_empty, decode_loop, b64_decode, symbol,
  base64_encode,
}
use roman_firmware.Base64.Alphabet.{read_char-symbol}

-- A quartet of four symbols holds their 24 bits.
quartet_three :
    (last : Bool) (p q r s : ℕ)
    → decode_quartet last (symbol p) (symbol q) (symbol r) (symbol s)
      ≡ some (quartet_bytes (triple (p % 64) (q % 64) (r % 64) (s % 64)) 0)
unfolding decode_quartet
quartet_three last p q r s =
    rw (read_char-symbol, read_char-symbol, read_char-symbol, read_char-symbol)

quartet_two :
    (p q r : ℕ)
    → r % 4 ≡ 0
    → decode_quartet true (symbol p) (symbol q) (symbol r) b'='
      ≡ some (quartet_bytes (triple (p % 64) (q % 64) (r % 64) 0) 1)
unfolding decode_quartet read_char
quartet_two p q r h = rw (read_char-symbol, read_char-symbol, read_char-symbol) (ground arith)

quartet_one :
    (p q : ℕ)
    → q % 16 ≡ 0
    → decode_quartet true (symbol p) (symbol q) b'=' b'='
      ≡ some (quartet_bytes (triple (p % 64) (q % 64) 0 0) 2)
unfolding decode_quartet read_char
quartet_one p q h = rw (read_char-symbol, read_char-symbol) (ground arith)

three_bytes :
    (x y z : ℕ)
    → x < 256
    → y < 256
    → z < 256
    → (let b = x * 2 ^ 16 + y * 2 ^ 8 + z in
        quartet_bytes (triple (b / 2 ^ 18 % 64) (b / 2 ^ 12 % 64) (b / 2 ^ 6 % 64) (b % 64)) 0)
      ≡ x ∷ y ∷ z ∷ []
unfolding quartet_bytes triple
three_bytes x y z hx hy hz = ground arith

two_bytes :
    (x y : ℕ)
    → x < 256
    → y < 256
    → (let b = x * 2 ^ 16 + y * 2 ^ 8 in
        quartet_bytes (triple (b / 2 ^ 18 % 64) (b / 2 ^ 12 % 64) (b / 2 ^ 6 % 64) 0) 1)
      ≡ x ∷ y ∷ []
unfolding quartet_bytes triple
two_bytes x y hx hy = ground arith

one_byte :
    (x : ℕ)
    → x < 256
    → (let b = x * 2 ^ 16 in quartet_bytes (triple (b / 2 ^ 18 % 64) (b / 2 ^ 12 % 64) 0 0) 2)
      ≡ x ∷ []
unfolding quartet_bytes triple
one_byte x hx = ground arith

loop-encode :
    (cap o : ℕ) (bs : Bytes)
    → AreBytes bs
    → o + length bs ≤ cap
    → decode_loop cap o (base64_encode bs) ≡ some bs
unfolding decode_loop base64_encode is_empty
loop-encode cap o [] h fits = refl
loop-encode cap o (x ∷ []) h fits =
    let b = x * 2 ^ 16 in
    rw (
      quartet_one (b / 2 ^ 18) (b / 2 ^ 12) (omega arith),
      one_byte x h.0,
      le→ltb cap (o + 1) (omega arith),
    )
loop-encode cap o (x ∷ y ∷ []) h fits =
    let b = x * 2 ^ 16 + y * 2 ^ 8 in
    rw (
      quartet_two (b / 2 ^ 18) (b / 2 ^ 12) (b / 2 ^ 6) (omega arith),
      two_bytes x y h.0 h.1.0,
      le→ltb cap (o + 2) (omega arith),
    )
loop-encode cap o (x ∷ y ∷ z ∷ rest) h fits =
    let b = x * 2 ^ 16 + y * 2 ^ 8 + z in
    rw (
      quartet_three (is_empty (base64_encode rest)) (b / 2 ^ 18) (b / 2 ^ 12) (b / 2 ^ 6) b,
      three_bytes x y z h.0 h.1.0 h.1.1.0,
      le→ltb cap (o + 3) (omega arith),
      loop-encode cap (o + 3) rest h.1.1.1 (omega arith),
    )

length-encode : (bs : Bytes) → length (base64_encode bs) % 4 ≡ 0
unfolding base64_encode
length-encode [] = refl
length-encode (x ∷ []) = refl
length-encode (x ∷ y ∷ []) = refl
length-encode (x ∷ y ∷ z ∷ rest) = omega (arith, length-encode rest)

length-encode-pos : (bs : Bytes) → bs ≢ [] → 0 < length (base64_encode bs)
unfolding base64_encode
length-encode-pos [] h = absurd (h refl)
length-encode-pos (x ∷ []) h = omega arith
length-encode-pos (x ∷ y ∷ []) h = omega arith
length-encode-pos (x ∷ y ∷ z ∷ rest) h = omega arith

-- Whatever bytes the board encodes, at least one, its decoder reads them back, if they fit in the
-- buffer.
pub decode-encode :
    (bs : Bytes) (cap : ℕ)
    → AreBytes bs
    → bs ≢ []
    → length bs ≤ cap
    → b64_decode (base64_encode bs) cap ≡ some bs
unfolding b64_decode
decode-encode bs cap h ne fits =
    ground (arith, length-encode bs, length-encode-pos bs ne, loop-encode cap 0 bs h (omega arith))
