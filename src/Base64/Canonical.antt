-- ===== src/Base64/Canonical.antt =====
-- The decoder of record.c accepts canonical base64 only, and stays within its buffer.
use mathlib.Core.Option.{some-injective}
use roman_firmware.Prelude.{
  subst, ℕ, ◌+◌, ◌%◌, ◌≤◌, ◌≡◌, inl, inr, ◌∙◌, ap, Bool, true, some, [], ◌∷◌, ◌++◌, arith, Bytes,
  AreBytes, AreBytes-concat, length, length-append, bind-eq-some, ltb, Bool-cases, ltb-false→le,
}
use roman_firmware.Base64.{
  read_char, triple, quartet_bytes, decode_quartet, is_empty, decode_loop, b64_decode,
  base64_encode,
}
use roman_firmware.Base64.Quartet.{quartet-encode}

-- One round of the outer loop that succeeded.
round_sound :
    (cap o a b c d : ℕ) (rest bs : Bytes)
    → decode_loop cap o (a ∷ b ∷ c ∷ d ∷ rest) ≡ some bs
    → (bytes : Bytes) × (tail : Bytes) × (decode_quartet (is_empty rest) a b c d ≡ some bytes)
      × (o + length bytes ≤ cap)
      × (decode_loop cap (o + length bytes) rest ≡ some tail)
      × (bytes ++ tail ≡ bs)
unfolding decode_loop
round_sound cap o a b c d rest bs h =
    let (bytes, e, h') = bind-eq-some (decode_quartet (is_empty rest) a b c d) _ h in
    elim (Bool-cases (ltb cap (o + length bytes))) [
      | inl full ↦ cc (rw full at h')
      | inr room ↦
          let (tail, e', h'') =
            bind-eq-some (decode_loop cap (o + length bytes) rest) _ (rw room at h') in
          (bytes, tail, e, ltb-false→le _ _ room, e', cc)
    ]

loop_at_end :
    (cap o : ℕ) (rest tail : Bytes)
    → decode_loop cap o rest ≡ some tail
    → is_empty rest ≡ true
    → tail ≡ []
unfolding decode_loop is_empty
loop_at_end cap o [] tail h e = cc
loop_at_end cap o (x ∷ rest) tail h e = cc

encode-loop :
    (cap o : ℕ) (s bs : Bytes)
    → length s % 4 ≡ 0
    → decode_loop cap o s ≡ some bs
    → base64_encode bs ≡ s
encode-loop cap o [] bs m h = unfold decode_loop base64_encode in ground arith
encode-loop cap o (a ∷ []) bs m h = absurd (omega arith)
encode-loop cap o (a ∷ b ∷ []) bs m h = absurd (omega arith)
encode-loop cap o (a ∷ b ∷ c ∷ []) bs m h = absurd (omega arith)
encode-loop cap o (a ∷ b ∷ c ∷ d ∷ rest) bs m h =
    let (bytes, tail, e, fits, e', joined) = round_sound cap o a b c d rest bs h in
    rw (← joined) (
      quartet-encode (is_empty rest) a b c d bytes tail
        (loop_at_end cap (o + length bytes) rest tail e') e
      ∙ ap (λ t. a ∷ b ∷ c ∷ d ∷ t) (encode-loop cap (o + length bytes) rest tail (omega arith) e'))

-- An accepted text is the one encoding of the bytes it stands for: no two texts decode alike.
pub encode-decode :
    (s : Bytes) (cap : ℕ) (bs : Bytes) → b64_decode s cap ≡ some bs → base64_encode bs ≡ s
unfolding b64_decode
encode-decode s cap bs h =
    let checked : (length s % 4 ≡ 0) × (decode_loop cap 0 s ≡ some bs) = ground arith in
    encode-loop cap 0 s bs checked.0 checked.1

quartet_bytes-AreBytes : (t pad : ℕ) → AreBytes (quartet_bytes t pad)
unfolding quartet_bytes
quartet_bytes-AreBytes t pad = ground arith

quartet-AreBytes :
    (last : Bool) (a b c d : ℕ) (bs : Bytes) → decode_quartet last a b c d ≡ some bs → AreBytes bs
unfolding decode_quartet
quartet-AreBytes last a b c d bs h =
    let (r0, _, h0) = bind-eq-some (read_char 0 last a 0) _ h in
    let (r1, _, h1) = bind-eq-some (read_char 1 last b r0.1) _ h0 in
    let (r2, _, h2) = bind-eq-some (read_char 2 last c r1.1) _ h1 in
    let (r3, _, h3) = bind-eq-some (read_char 3 last d r2.1) _ h2 in
    let t = triple r0.0 r1.0 r2.0 r3.0 in
    let found : some (quartet_bytes t r3.1) ≡ some bs = ground arith in
    subst AreBytes (some-injective _ _ found) (quartet_bytes-AreBytes t r3.1)

loop_bounds :
    (cap o : ℕ) (s bs : Bytes)
    → o ≤ cap
    → decode_loop cap o s ≡ some bs
    → (o + length bs ≤ cap) × AreBytes bs
loop_bounds cap o [] bs le h = unfold decode_loop in ground arith
loop_bounds cap o (a ∷ []) bs le h = unfold decode_loop in ground arith
loop_bounds cap o (a ∷ b ∷ []) bs le h = unfold decode_loop in ground arith
loop_bounds cap o (a ∷ b ∷ c ∷ []) bs le h = unfold decode_loop in ground arith
loop_bounds cap o (a ∷ b ∷ c ∷ d ∷ rest) bs le h =
    let (bytes, tail, e, fits, e', joined) = round_sound cap o a b c d rest bs h in
    let (room, ok) = loop_bounds cap (o + length bytes) rest tail fits e' in
    rw (← joined) (
      omega (arith, length-append bytes tail),
      AreBytes-concat bytes tail (quartet-AreBytes (is_empty rest) a b c d bytes e) ok,
    )

-- The decoder writes bytes, and never past its buffer.
pub decode_bounds :
    (s : Bytes) (cap : ℕ) (bs : Bytes)
    → b64_decode s cap ≡ some bs
    → (length bs ≤ cap) × AreBytes bs
unfolding b64_decode
decode_bounds s cap bs h =
    let checked : decode_loop cap 0 s ≡ some bs = ground arith in
    let (room, ok) = loop_bounds cap 0 s bs (omega arith) checked in (omega arith, ok)
