-- ===== src/Record/DeviceId.antt =====
-- What `record_device_id_valid` accepts.
use roman_firmware.Prelude.{
  ℕ, ◌≤◌, ◌<◌, ◌≡◌, ◌≢◌, ◌⊎◌, ◌↔◌, refl, true, [], ◌∷◌, arith, Bytes, All, length,
}
use roman_firmware.Record.{id_char, all_id_chars, device_id_valid, c_str}

abbrev pub IsIdChar : ℕ → Type 0
IsIdChar c =
    (b'A' ≤ c) × (c ≤ b'Z')
    ⊎ (b'a' ≤ c) × (c ≤ b'z')
    ⊎ (b'0' ≤ c) × (c ≤ b'9')
    ⊎ (c ≡ b'.')
    ⊎ (c ≡ b'_')
    ⊎ (c ≡ b'-')

id_char→IsIdChar : (c : ℕ) → id_char c ≡ true → IsIdChar c
unfolding id_char
id_char→IsIdChar c h = ground arith

IsIdChar→id_char : (c : ℕ) → IsIdChar c → id_char c ≡ true
unfolding id_char
IsIdChar→id_char c h = ground arith

all→All : (s : Bytes) → all_id_chars s ≡ true → All IsIdChar s
unfolding all_id_chars
all→All [] h = tt
all→All (c ∷ s) h = (id_char→IsIdChar c (unfold id_char in ground arith), all→All s (ground arith))

All→all : (s : Bytes) → All IsIdChar s → all_id_chars s ≡ true
unfolding all_id_chars
All→all [] h = refl
All→all (c ∷ s) (hc, hs) = rw (IsIdChar→id_char c hc) (All→all s hs)

-- A device id is accepted exactly when it is 1 to 32 characters of [A-Za-z0-9._-].
pub device_id_valid_iff :
    (s : Bytes) → (device_id_valid s ≡ true) ↔ ((1 ≤ length s) × (length s ≤ 32) × All IsIdChar s)
unfolding device_id_valid
device_id_valid_iff s = (
  λ h. (ground arith, ground arith, all→All s (ground arith)),
  λ (lo, hi, ok). let e : all_id_chars s ≡ true = All→all s ok in ground arith,
)

-- No character of a device id is a NUL, a quote, a backslash or a control character: it can stand
-- unescaped in a JSON string.
abbrev pub IsPlain : ℕ → Type 0
IsPlain c = (b'-' ≤ c) × (c < 127) × (c ≢ b'"') × (c ≢ b'\\')

plain : (s : Bytes) → All IsIdChar s → All IsPlain s
plain [] h = tt
plain (c ∷ s) (hc, hs) = (ground arith, plain s hs)

pub device_id-IsPlain : (s : Bytes) → device_id_valid s ≡ true → All IsPlain s
device_id-IsPlain s h = plain s ((device_id_valid_iff s).0 h).2

pub c_str-IsPlain : (s : Bytes) → All IsPlain s → c_str s ≡ s
unfolding c_str
c_str-IsPlain [] h = refl
c_str-IsPlain (c ∷ s) (hc, hs) = ground (arith, c_str-IsPlain s hs)
