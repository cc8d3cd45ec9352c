-- ===== src/Base64/Quartet.antt =====
-- What an accepted quartet of `record_b64_decode` (record.c) says of the text: encoding its bytes
-- gives its four characters back.
use roman_firmware.Prelude.{
  ℕ, ◌+◌, ◌*◌, ◌/◌, ◌%◌, ◌^◌, ◌<◌, ◌≡◌, inl, inr, Bool, true, not, ◌&&◌, Option, none, some, [],
  ◌∷◌, ◌++◌, arith, Bytes, append-nil, bind-eq-some, ◌==◌, if◌then◌else◌,
}
use roman_firmware.Base64.{read_char, triple, quartet_bytes, decode_quartet, symbol, base64_encode}
use roman_firmware.Base64.Alphabet.{symbol_of_low, read_char_sound}

-- The number that the encoder forms from the bytes of a quartet is the quartet itself.
abbrev regroup : ℕ → ℕ
regroup t = t / 2 ^ 16 % 256 * 2 ^ 16 + t / 2 ^ 8 % 256 * 2 ^ 8 + t % 256

encode_three :
    (v0 v1 v2 v3 : ℕ) (rest : Bytes)
    → v0 < 64
    → v1 < 64
    → v2 < 64
    → v3 < 64
    → base64_encode (quartet_bytes (triple v0 v1 v2 v3) 0 ++ rest)
      ≡ symbol v0 ∷ symbol v1 ∷ symbol v2 ∷ symbol v3 ∷ base64_encode rest
unfolding quartet_bytes triple base64_encode
encode_three v0 v1 v2 v3 rest h0 h1 h2 h3 =
    let b = regroup (triple v0 v1 v2 v3) in
    cc (
      symbol_of_low (b / 2 ^ 18) v0 (omega arith),
      symbol_of_low (b / 2 ^ 12) v1 (omega arith),
      symbol_of_low (b / 2 ^ 6) v2 (omega arith),
      symbol_of_low b v3 (omega arith),
    )

encode_two :
    (v0 v1 v2 : ℕ)
    → v0 < 64
    → v1 < 64
    → v2 < 64
    → v2 % 4 ≡ 0
    → base64_encode (quartet_bytes (triple v0 v1 v2 0) 1)
      ≡ symbol v0 ∷ symbol v1 ∷ symbol v2 ∷ b'=' ∷ []
unfolding quartet_bytes triple base64_encode
encode_two v0 v1 v2 h0 h1 h2 low =
    let t = triple v0 v1 v2 0 in
    let b = t / 2 ^ 16 % 256 * 2 ^ 16 + t / 2 ^ 8 % 256 * 2 ^ 8 in
    cc (
      symbol_of_low (b / 2 ^ 18) v0 (omega arith),
      symbol_of_low (b / 2 ^ 12) v1 (omega arith),
      symbol_of_low (b / 2 ^ 6) v2 (omega arith),
    )

encode_one :
    (v0 v1 : ℕ)
    → v0 < 64
    → v1 < 64
    → v1 % 16 ≡ 0
    → base64_encode (quartet_bytes (triple v0 v1 0 0) 2) ≡ symbol v0 ∷ symbol v1 ∷ b'=' ∷ b'=' ∷ []
unfolding quartet_bytes triple base64_encode
encode_one v0 v1 h0 h1 low =
    let b = triple v0 v1 0 0 / 2 ^ 16 % 256 * 2 ^ 16 in
    cc (symbol_of_low (b / 2 ^ 18) v0 (omega arith), symbol_of_low (b / 2 ^ 12) v1 (omega arith))

read_char_early :
    (k : ℕ) (last : Bool) (c v pad : ℕ)
    → k < 2
    → read_char k last c 0 ≡ some (v, pad)
    → (symbol v ≡ c) × (v < 64) × (pad ≡ 0)
read_char_early k last c v pad early h = ground (arith, read_char_sound k last c 0 v pad h)

-- The tests behind the inner loop, on its values and its padding.
abbrev finish : ℕ → ℕ → ℕ → ℕ → ℕ → Option Bytes
finish v0 v1 v2 v3 pad =
    if pad == 1 && not (v2 % 4 == 0)
    then none
    else if pad == 2 && not (v1 % 16 == 0)
    then none
    else some (quartet_bytes (triple v0 v1 v2 v3) pad)

finish_three :
    (v0 v1 v2 v3 pad : ℕ) (bs rest : Bytes)
    → v0 < 64
    → v1 < 64
    → v2 < 64
    → v3 < 64
    → pad ≡ 0
    → finish v0 v1 v2 v3 pad ≡ some bs
    → base64_encode (bs ++ rest)
      ≡ symbol v0 ∷ symbol v1 ∷ symbol v2 ∷ symbol v3 ∷ base64_encode rest
finish_three v0 v1 v2 v3 pad bs rest h0 h1 h2 h3 p h =
    let found : some (quartet_bytes (triple v0 v1 v2 v3) 0) ≡ some bs = ground arith in
    cc (encode_three v0 v1 v2 v3 rest h0 h1 h2 h3)

finish_two :
    (v0 v1 v2 v3 pad : ℕ) (bs rest : Bytes)
    → v0 < 64
    → v1 < 64
    → v2 < 64
    → v3 ≡ 0
    → pad ≡ 1
    → rest ≡ []
    → finish v0 v1 v2 v3 pad ≡ some bs
    → base64_encode (bs ++ rest) ≡ symbol v0 ∷ symbol v1 ∷ symbol v2 ∷ b'=' ∷ base64_encode rest
finish_two v0 v1 v2 v3 pad bs rest h0 h1 h2 z p e h =
    let found : (v2 % 4 ≡ 0) × (some (quartet_bytes (triple v0 v1 v2 0) 1) ≡ some bs) =
      ground arith in
    rw (e, append-nil) (unfold base64_encode in cc (encode_two v0 v1 v2 h0 h1 h2 found.0, found.1))

finish_one :
    (v0 v1 v2 v3 pad : ℕ) (bs rest : Bytes)
    → v0 < 64
    → v1 < 64
    → v2 ≡ 0
    → v3 ≡ 0
    → pad ≡ 2
    → rest ≡ []
    → finish v0 v1 v2 v3 pad ≡ some bs
    → base64_encode (bs ++ rest) ≡ symbol v0 ∷ symbol v1 ∷ b'=' ∷ b'=' ∷ base64_encode rest
finish_one v0 v1 v2 v3 pad bs rest h0 h1 z2 z3 p e h =
    let found : (v1 % 16 ≡ 0) × (some (quartet_bytes (triple v0 v1 0 0) 2) ≡ some bs) =
      ground arith in
    rw (e, append-nil) (unfold base64_encode in cc (encode_one v0 v1 h0 h1 found.0, found.1))

finish-encode :
    (last : Bool) (v0 v1 c d v2 p2 v3 p3 : ℕ) (bs rest : Bytes)
    → (last ≡ true → rest ≡ [])
    → v0 < 64
    → v1 < 64
    → read_char 2 last c 0 ≡ some (v2, p2)
    → read_char 3 last d p2 ≡ some (v3, p3)
    → finish v0 v1 v2 v3 p3 ≡ some bs
    → base64_encode (bs ++ rest) ≡ symbol v0 ∷ symbol v1 ∷ c ∷ d ∷ base64_encode rest
finish-encode last v0 v1 c d v2 p2 v3 p3 bs rest final l0 l1 r2 r3 h =
    elim (read_char_sound 2 last c 0 v2 p2 r2) [
      | inl (c_pad, _, is_last, v2_zero, p2_one) ↦ elim (read_char_sound 3 last d p2 v3 p3 r3) [
        | inl (d_pad, _, _, v3_zero, p3_two) ↦
            rw (c_pad, d_pad)
              (finish_one v0 v1 v2 v3 p3 bs rest l0 l1 v2_zero v3_zero (omega arith) (final is_last)
                h)
        | inr (_, _, p2_zero, _) ↦ absurd (omega arith)
      ]
      | inr (c_sym, l2, _, p2_zero) ↦ elim (read_char_sound 3 last d p2 v3 p3 r3) [
        | inl (d_pad, _, is_last, v3_zero, p3_one) ↦
            rw (← c_sym, d_pad)
              (finish_two v0 v1 v2 v3 p3 bs rest l0 l1 l2 v3_zero (omega arith) (final is_last) h)
        | inr (d_sym, l3, _, p3_zero) ↦
            rw (← c_sym, ← d_sym) (finish_three v0 v1 v2 v3 p3 bs rest l0 l1 l2 l3 p3_zero h)
      ]
    ]

pub quartet-encode :
    (last : Bool) (a b c d : ℕ) (bs rest : Bytes)
    → (last ≡ true → rest ≡ [])
    → decode_quartet last a b c d ≡ some bs
    → base64_encode (bs ++ rest) ≡ a ∷ b ∷ c ∷ d ∷ base64_encode rest
unfolding decode_quartet
quartet-encode last a b c d bs rest final h =
    let (r0, e0, h0) = bind-eq-some (read_char 0 last a 0) _ h in
    let (a_sym, l0, z0) = read_char_early 0 last a r0.0 r0.1 (omega arith) e0 in
    let (r1, e1, h1) = bind-eq-some (read_char 1 last b r0.1) _ h0 in
    let (b_sym, l1, z1) = read_char_early 1 last b r1.0 r1.1 (omega arith) (rw z0 at e1) in
    let (r2, e2, h2) = bind-eq-some (read_char 2 last c r1.1) _ h1 in
    let (r3, e3, h3) = bind-eq-some (read_char 3 last d r2.1) _ h2 in
    rw (← a_sym, ← b_sym)
      (finish-encode last r0.0 r1.0 c d r2.0 r2.1 r3.0 r3.1 bs rest final l0 l1 (rw z1 at e2) e3 h3)
