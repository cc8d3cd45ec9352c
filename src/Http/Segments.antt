-- ===== src/Http/Segments.antt =====
-- A request that arrives in several segments.
use roman_firmware.Prelude.{ℕ, ◌+◌, ◌-◌, ◌≡◌, true, false, none, some, Bytes, length}
use roman_firmware.CString.{ℤ, pos, strstr}
use roman_firmware.Record.{c_str}
use roman_firmware.Http.Response.{Conn}
use roman_firmware.Http.Routing.{blank_line}
use roman_firmware.Http.Connection.{incomplete}

-- The blank line has not come, or the body is shorter than the header announces.
abbrev pub IsPartial : ℤ → Bytes → Type 0
IsPartial n buf = elim (strstr blank_line (c_str buf)) [
  | none ↦ Unit {0}
  | some (head, sep) ↦ incomplete n (length buf - (length head + 4)) ≡ true
]

-- The connection with its length known and the bytes `buf` received.
abbrev pub holding : ℕ → Conn → Bytes → Conn
holding n st buf = record st { buf = buf; content_length = pos n; done = false }
