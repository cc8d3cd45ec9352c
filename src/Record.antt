-- ===== src/Record.antt =====
-- The record codec, record.c and record.h: the device id rule, and the payload
--   version | id length n | Ed25519 public key (32) | Ed25519 secret key (64) | device id (n).
--
-- A device id is a C string, the bytes before its NUL, and NULL is `none`. The key arguments and
-- `dst` are never NULL at the calls, and the outputs of `record_decode` are returned together.
pub mod DeviceId
pub mod RoundTrip
pub mod Tests
use roman_firmware.Prelude.{
  ℕ, ◌+◌, Bool, true, false, not, ◌&&◌, ◌||◌, Option, none, some, List, [], ◌∷◌, ◌++◌, Bytes,
  length, get_or, take, slice, leb, ltb, ◌==◌, if◌then◌else◌,
}

abbrev pub format_version : ℕ
format_version = 1

abbrev pub max_device_id : ℕ
max_device_id = 32

abbrev pub fixed_len : ℕ
fixed_len = 98

abbrev pub record_max : ℕ
record_max = fixed_len + max_device_id

-- `ok` in the loop of `record_device_id_valid`
unfoldable pub id_char : ℕ → Bool
id_char c =
    leb b'A' c && leb c b'Z'
    || leb b'a' c && leb c b'z'
    || leb b'0' c && leb c b'9'
    || c == b'.'
    || c == b'_'
    || c == b'-'

unfoldable pub all_id_chars : Bytes → Bool
unfolding id_char
all_id_chars [] = true
all_id_chars (c ∷ s) = if not (id_char c) then false else all_id_chars s

unfoldable pub device_id_valid : Bytes → Bool
device_id_valid s = if length s == 0 || ltb max_device_id (length s) then false else all_id_chars s

-- `record_device_id_valid(device_id)`, where the argument may be NULL
unfoldable pub record_device_id_valid : Option Bytes → Bool
unfolding device_id_valid
record_device_id_valid none = false
record_device_id_valid (some s) = device_id_valid s

-- `record_encode(dst, cap, pk, sk, device_id)`: the payload written, whose length is returned;
-- [] stands for the result 0.
unfoldable pub record_encode : ℕ → Bytes → Bytes → Option Bytes → Bytes
record_encode cap pk sk none = []
record_encode cap pk sk (some device_id) =
    let total = fixed_len + length device_id in
    if not (device_id_valid device_id)
    then []
    else if ltb cap total || ltb record_max total
    then []
    else format_version ∷ length device_id ∷ (take 32 pk ++ (take 64 sk ++ device_id))

-- The bytes before the first NUL.
unfoldable pub c_str : Bytes → Bytes
c_str [] = []
c_str (b ∷ s) = elim (b == 0) [ true ↦ [] | false ↦ b ∷ c_str s ]

pub record Fields : Type 0 where
  pub pk : Bytes
  pub sk : Bytes
  pub device_id : Bytes

-- `record_decode(src, len, pk, sk, device_id, device_id_cap)` on the `len` bytes at `src`. The local
-- `id` holds the `id_len` bytes behind the fixed part and a NUL, and is checked as a C string; the
-- C string copied out is the one checked.
unfoldable pub record_decode : Bytes → ℕ → Option Fields
record_decode src device_id_cap =
    let len = length src in
    let id_len = get_or src 1 0 in
    let id = c_str (slice fixed_len id_len src) in
    if ltb len fixed_len || ltb record_max len
    then none
    else if not (get_or src 0 0 == format_version)
    then none
    else if id_len == 0 || ltb max_device_id id_len
    then none
    else if not (len == fixed_len + id_len)
    then none
    else if not (device_id_valid id)
    then none
    else if ltb device_id_cap (id_len + 1)
    then none
    else some (record { pk = slice 2 32 src; sk = slice 34 64 src; device_id = id })
