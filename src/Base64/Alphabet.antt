-- ===== src/Base64/Alphabet.antt =====
-- The two directions of the alphabet, `b64_value` of record.c and BASE64[] of http_server.c, and
-- what they give for one round of the decoder's inner loop.
use roman_firmware.Prelude.{
  ℕ, ◌+◌, ◌%◌, ◌≤◌, ◌<◌, ◌≡◌, refl, sym, ap, get_or, ◌⊎◌, Bool, true, false, not, ◌&&◌, none, some,
  arith, ltb, ◌==◌, passes, passes-each,
}
use roman_firmware.Base64.{b64_value, read_char, symbol, alphabet}

-- What is checked of every value: its symbol is no padding and is read back.
reads_back : ℕ → Bool
reads_back v =
    not (symbol v == b'=') && elim (b64_value (symbol v)) [ none ↦ false | some w ↦ w == v ]

reads_back_table : passes reads_back 64 ≡ true
unfolding passes reads_back symbol b64_value
reads_back_table = refl

-- What is checked of every character of the alphabet: its value has it as symbol.
writes_back : ℕ → Bool
writes_back c = elim (b64_value c) [ none ↦ true | some v ↦ symbol v == c && ltb v 64 ]

writes_back_table : passes writes_back 123 ≡ true
unfolding passes writes_back symbol b64_value
writes_back_table = refl

value-lt : (c v : ℕ) → b64_value c ≡ some v → c < 123
unfolding b64_value
value-lt c v h = ground arith

pub symbol-mod : (v : ℕ) → symbol (v % 64) ≡ symbol v
unfolding symbol
symbol-mod v = ap (λ k. get_or alphabet k 0) {x = v % 64 % 64} {y = v % 64} (omega arith)

symbol_small : (v : ℕ) → v < 64 → (b64_value (symbol v) ≡ some v) × ((symbol v == b'=') ≡ false)
unfolding reads_back
symbol_small v h = ground (arith, passes-each reads_back {x = v} 64 h reads_back_table)

pub value-symbol : (v : ℕ) → b64_value (symbol v) ≡ some (v % 64)
value-symbol v = rw (← symbol-mod v) (symbol_small (v % 64) (omega arith)).0

pub symbol-ne-pad : (v : ℕ) → (symbol v == b'=') ≡ false
symbol-ne-pad v = rw (← symbol-mod v) (symbol_small (v % 64) (omega arith)).1

pub symbol-value : (c v : ℕ) → b64_value c ≡ some v → (symbol v ≡ c) × (v < 64)
unfolding writes_back
symbol-value c v h =
    ground (arith, h, passes-each writes_back {x = c} 123 (value-lt c v h) writes_back_table)

-- A symbol is read at any place where no padding has been seen.
pub read_char-symbol :
    (k : ℕ) (last : Bool) (v : ℕ) → read_char k last (symbol v) 0 ≡ some (v % 64, 0)
unfolding read_char
read_char-symbol k last v = rw (symbol-ne-pad v, value-symbol v)

-- What `read_char` accepts: the padding character in the last two places of the final quartet, or
-- a symbol where no padding has been seen.
pub read_char_sound :
    (k : ℕ) (last : Bool) (c pad v pad' : ℕ)
    → read_char k last c pad ≡ some (v, pad')
    → ((c ≡ b'=') × (2 ≤ k) × (last ≡ true) × (v ≡ 0) × (pad' ≡ pad + 1))
      ⊎ ((symbol v ≡ c) × (v < 64) × (pad ≡ 0) × (pad' ≡ 0))
unfolding read_char
read_char_sound k last c pad v pad' h = ground (arith, symbol-value c v)

-- The symbol of a number depends on its six low bits only.
pub symbol_of_low : (n v : ℕ) → n % 64 ≡ v → symbol n ≡ symbol v
symbol_of_low n v h = rw (← h) (sym (symbol-mod n))
