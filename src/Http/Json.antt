-- ===== src/Http/Json.antt =====
-- `json_get_string` of http_server.c: a field's value, searched for in the text of the body.
pub mod Field
use roman_firmware.Prelude.{
  ℕ, ◌-◌, Bool, true, false, ◌||◌, Option, none, some, List, [], ◌∷◌, ◌++◌, Bytes, drop, ◌==◌,
  if◌then◌else◌, ◌>>=◌,
}
use roman_firmware.CString.{strchr, strstr, snprintf}

-- "
abbrev pub quote : ℕ
quote = 34

-- while (*p == ' ' || *p == '\t') p++;
unfoldable pub skip_blanks : Bytes → Bytes
skip_blanks [] = []
skip_blanks (c ∷ s) = if c == 32 || c == 9 then skip_blanks s else c ∷ s

-- if (*p != '"') return -1; p++;
unfoldable pub open_quote : Bytes → Option Bytes
open_quote [] = none
open_quote (c ∷ s) = if c == quote then some s else none

-- The text in `buf` after a result 0; `none` is the result -1.
unfoldable pub json_get_string : Bytes → Bytes → ℕ → Option Bytes
json_get_string json key buf_size = do
  let search = snprintf 128 (quote ∷ key ++ quote ∷ [])
  (_, p) ← strstr search json
  (_, p) ← strchr b':' p
  p ← open_quote (skip_blanks (drop 1 p))
  (value, _) ← strchr quote p
  some (snprintf buf_size value)
