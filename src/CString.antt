-- ===== src/CString.antt =====
-- What http_server.c uses of the C library on strings. A string is the list of the bytes before its
-- NUL. A pointer into a string is the pair of the bytes before it and the bytes from it on.
pub mod Search
pub mod Tests
use roman_firmware.Prelude.{
  ℕ, zero, suc, ◌+◌, ◌-◌, ◌*◌, ◌/◌, ◌%◌, Bool, true, false, ◌&&◌, ◌||◌, Option, none, some, List,
  [], ◌∷◌, ◌++◌, Bytes, take, leb, ltb, ◌==◌, if◌then◌else◌,
}

-- The pointer one byte further to the left of the string.
abbrev push : ℕ → Option (Bytes × Bytes) → Option (Bytes × Bytes)
push x none = none
push x (some (front, back)) = some (x ∷ front, back)

-- strchr(s, c) for a character other than NUL
unfoldable pub strchr : ℕ → Bytes → Option (Bytes × Bytes)
strchr c [] = none
strchr c (x ∷ s) = if x == c then some ([], x ∷ s) else push x (strchr c s)

-- Whether `s` starts with `text`.
unfoldable pub starts : Bytes → Bytes → Bool
starts [] s = true
starts (t ∷ text) [] = false
starts (t ∷ text) (x ∷ s) = t == x && starts text s

-- strstr(s, text)
unfoldable pub strstr : Bytes → Bytes → Option (Bytes × Bytes)
unfolding starts
strstr text [] = if starts text [] then some ([], []) else none
strstr text (x ∷ s) = if starts text (x ∷ s) then some ([], x ∷ s) else push x (strstr text s)

-- The pieces of a formatted text, one behind the other.
unfoldable pub concat : List Bytes → Bytes
concat [] = []
concat (piece ∷ pieces) = piece ++ concat pieces

-- What snprintf leaves in a buffer of `size` bytes when it prints `text`.
unfoldable pub snprintf : ℕ → Bytes → Bytes
snprintf size text = take (size - 1) text

-- `%u`, and `%d` of a number that is not negative: at most `fuel` digits.
digits : ℕ → ℕ → Bytes
digits zero n = []
digits (suc fuel) n =
    let front = digits fuel (n / 10) in
    if ltb n 10 then (b'0' + n) ∷ [] else front ++ (b'0' + n % 10) ∷ []

-- Ten digits are enough for 32 bits.
unfoldable pub decimal : ℕ → Bytes
unfolding digits
decimal n = digits 10 n

-- An `int`; `negsuc n` is -(n + 1).
pub data ℤ : Type 0 where
  pos : ℕ → ℤ
  negsuc : ℕ → ℤ

unfoldable pub is_space : ℕ → Bool
is_space c = c == 32 || leb 9 c && leb c 13

unfoldable pub is_digit : ℕ → Bool
is_digit c = leb b'0' c && leb c b'9'

unfoldable pub skip_space : Bytes → Bytes
unfolding is_space
skip_space [] = []
skip_space (c ∷ s) = if is_space c then skip_space s else c ∷ s

-- The number that the leading digits stand for, behind those read so far.
unfoldable pub read_digits : ℕ → Bytes → ℕ
unfolding is_digit
read_digits n [] = n
read_digits n (c ∷ s) =
    let more = read_digits (n * 10 + (c - b'0')) s in if is_digit c then more else n

-- The result is out of range of `int` for a longer number; newlib's atoi, strtol, saturates there.
unfoldable pub clamp_int : Bool → ℕ → ℤ
clamp_int minus n =
    if minus && ltb 0 n
    then (if ltb 0x80000000 n then negsuc 0x7FFFFFFF else negsuc (n - 1))
    else if ltb 0x7FFFFFFF n
    then pos 0x7FFFFFFF
    else pos n

signed : Bytes → ℤ
unfolding read_digits clamp_int
signed [] = pos 0
signed (c ∷ s) =
    if c == b'-'
    then clamp_int true (read_digits 0 s)
    else if c == b'+'
    then clamp_int false (read_digits 0 s)
    else clamp_int false (read_digits 0 (c ∷ s))

unfoldable pub atoi : Bytes → ℤ
unfolding skip_space signed
atoi s = signed (skip_space s)
