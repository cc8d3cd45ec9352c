-- ===== src/Http/Board.antt =====
-- What the handlers of http_server.c share.
use roman_firmware.Prelude.{ℕ, ◌+◌, ◌%◌, ◌^◌, Bool, Option, Bytes}
use roman_firmware.Diag.{Stage}
use roman_firmware.Storage.{Crypto, Hardware}
use roman_firmware.Keystore.{Keystore, at_stage}
use roman_firmware.Led.{Led, Timer}
use roman_firmware.Stack.{Stack}

-- http_stats_t; the counters are uint32_t.
pub record Stats : Type 0 where
  pub requests : ℕ
  pub sign_ok : ℕ
  pub sign_bad : ℕ
  pub write_ok : ℕ
  pub write_bad : ℕ
  pub clear_ok : ℕ
  pub clear_bad : ℕ
  pub not_found : ℕ
  pub too_large : ℕ
  pub errors : ℕ

-- The statics of the modules that a request reaches. `signing_sk` is the static `sk` of
-- handle_sign_post, `boot_stage` the stage that diag.c captured.
pub record Board : Type 0 where
  pub keystore : Keystore
  pub led : Led
  pub stack : Stack
  pub stats : Stats
  pub signing_sk : Bytes
  pub boot_stage : Stage

-- netif_default, once there is one.
pub record Netif : Type 0 where
  pub hwaddr : Bytes
  pub ip : Bytes
  pub link_up : Bool

-- What lies outside the repository, as it answers during one callback. The texts are as printed.
pub record Env : Type 0 where
  pub crypto : Crypto
  pub hardware : Hardware
  pub timer : Timer
  pub now : ℕ
  pub version : Bytes
  pub sdk_version : Bytes
  pub uptime_ms : ℕ
  pub clock_hz : ℕ
  pub unique_board_id : Bytes
  pub caused_reboot : Bool
  pub stack_bottom : ℕ
  pub stack_pointer : ℕ
  pub netif : Option Netif

-- WEB_STAT(field): the counter's successor.
abbrev pub count_up : ℕ → ℕ
count_up n = (n + 1) % 2 ^ 32

-- `diag_stage`, where only the board's scratch register changes.
abbrev pub stage : Stage → Board → Board
stage s b = record b { keystore = at_stage s b.keystore }

abbrev pub with_keystore : Keystore → Board → Board
with_keystore ks b = record b { keystore = ks }
