-- ===== src/Http/Snapshot.antt =====
-- The text of POST /debug: `debug_selftest` and the printing in `debug_snapshot` of http_server.c.
use roman_firmware.Prelude.{
  ℕ, ◌/◌, ◌%◌, Bool, true, false, not, Option, none, some, [], ◌∷◌, ◌++◌, Bytes, codes, length,
  get_or, ◌==◌, if◌then◌else◌,
}
use roman_firmware.Base64.{base64_encode}
use roman_firmware.CString.{concat, decimal, snprintf}
use roman_firmware.Diag.{diag_stage_name}
use roman_firmware.Stack.{stack_total, stack_used_now, stack_used_max, stack_free_min}
use roman_firmware.Storage.{
  storage_writen, storage_available, storage_read, storage_x25519_pk, max_payload,
}
use roman_firmware.Http.Board.{Board, Env, Netif, Stats}

-- `id_json`
unfoldable pub id_json : Option Bytes → Bytes
id_json none = codes "null"
id_json (some device_id) = snprintf 40 (codes "\"" ++ (device_id ++ codes "\""))

-- The result, `plaintext_len` and `available`.
unfoldable pub debug_selftest : Env → Bytes → Bytes × ℕ × Bool
debug_selftest e flash =
    let n = length (storage_read e.crypto flash max_payload) in
    if not (storage_available flash)
    then (codes "empty", 0, false)
    else if n == 0
    then (codes "corrupt", 0, true)
    else (codes "ok", n, true)

abbrev hex_digits : Bytes
hex_digits = codes "0123456789ABCDEF"

hex_byte : ℕ → Bytes
hex_byte x = get_or hex_digits (x / 16 % 16) 0 ∷ get_or hex_digits (x % 16) 0 ∷ []

-- The loop over the bytes of the hardware address, with colons between them.
unfoldable pub mac_text : Bytes → Bytes
unfolding hex_byte
mac_text [] = []
mac_text (x ∷ []) = hex_byte x
mac_text (x ∷ rest) = hex_byte x ++ (codes ":" ++ mac_text rest)

bool_text : Bool → Bytes
bool_text true = codes "true"
bool_text false = codes "false"

encoded : Option Bytes → Bytes
encoded none = []
encoded (some key) = base64_encode key

net_text : Option Netif → Bytes
unfolding mac_text bool_text
net_text none = codes "{\"ip\":\"0.0.0.0\",\"mac\":\"00:00:00:00:00:00\",\"link_up\":false}"
net_text (some n) = concat (
    codes "{\"ip\":\""
    ∷ n.ip
    ∷ codes "\",\"mac\":\""
    ∷ mac_text n.hwaddr
    ∷ codes "\",\"link_up\":"
    ∷ bool_text n.link_up
    ∷ codes "}"
    ∷ [])

web_text : ℕ → Stats → Bytes
web_text conns s = concat (
    codes "{\"conns\":"
    ∷ decimal conns
    ∷ codes ",\"conns_max\":3,\"requests\":"
    ∷ decimal s.requests
    ∷ codes ",\"sign_ok\":"
    ∷ decimal s.sign_ok
    ∷ codes ",\"sign_bad\":"
    ∷ decimal s.sign_bad
    ∷ codes ",\"write_ok\":"
    ∷ decimal s.write_ok
    ∷ codes ",\"write_bad\":"
    ∷ decimal s.write_bad
    ∷ codes ",\"clear_ok\":"
    ∷ decimal s.clear_ok
    ∷ codes ",\"clear_bad\":"
    ∷ decimal s.clear_bad
    ∷ codes ",\"not_found\":"
    ∷ decimal s.not_found
    ∷ codes ",\"too_large\":"
    ∷ decimal s.too_large
    ∷ codes ",\"errors\":"
    ∷ decimal s.errors
    ∷ codes "}"
    ∷ [])

storage_text : Env → Bytes → Bytes
unfolding bool_text
storage_text e flash =
    let (selftest, plaintext_len, available) = debug_selftest e flash in
    concat (
      codes "{\"writen\":"
      ∷ bool_text (storage_writen flash)
      ∷ codes ",\"available\":"
      ∷ bool_text available
      ∷ codes ",\"selftest\":\""
      ∷ selftest
      ∷ codes "\",\"plaintext_len\":"
      ∷ decimal plaintext_len
      ∷ codes ",\"max_payload\":232,\"flash_offset\":1048576}"
      ∷ [])

stack_text : Env → Board → Bytes
stack_text e b = concat (
    codes "{\"used_now\":"
    ∷ decimal (stack_used_now e.stack_bottom e.stack_pointer)
    ∷ codes ",\"total\":"
    ∷ decimal stack_total
    ∷ codes ",\"used_max\":"
    ∷ decimal (stack_used_max b.stack)
    ∷ codes ",\"free_min\":"
    ∷ decimal (stack_free_min b.stack)
    ∷ codes "}"
    ∷ [])

-- The whole text that is printed, with the public key and the id as they were read.
unfoldable pub snapshot_text : Env → ℕ → Option Bytes → Option Bytes → Board → Bytes
unfolding net_text web_text storage_text stack_text bool_text encoded
snapshot_text e conns pk device_id b =
    let flash = b.keystore.store.flash in
    concat (
      codes "{\"status\":\"ok\",\"debug\":{\"uptime_ms\":"
      ∷ decimal e.uptime_ms
      ∷ codes ",\"firmware\":\""
      ∷ e.version
      ∷ codes "\",\"sdk\":\""
      ∷ e.sdk_version
      ∷ codes "\",\"cpu_mhz\":"
      ∷ decimal (e.clock_hz / 1000000)
      ∷ codes ",\"unique_id\":\""
      ∷ e.unique_board_id
      ∷ codes "\",\"reset_by_watchdog\":"
      ∷ bool_text e.caused_reboot
      ∷ codes ",\"stack\":"
      ∷ stack_text e b
      ∷ codes ",\"net\":"
      ∷ net_text e.netif
      ∷ codes ",\"web\":"
      ∷ web_text conns b.stats
      ∷ codes ",\"storage\":"
      ∷ storage_text e flash
      ∷ codes ",\"roman\":{\"device_id\":"
      ∷ id_json device_id
      ∷ codes ",\"ed25519_pk\":\""
      ∷ encoded pk
      ∷ codes "\",\"x25519_pk\":\""
      ∷ encoded (storage_x25519_pk flash)
      ∷ codes "\",\"last_stage\":\""
      ∷ codes (diag_stage_name b.boot_stage)
      ∷ codes "\",\"reset_by_watchdog\":"
      ∷ bool_text e.caused_reboot
      ∷ codes "}}}"
      ∷ [])
