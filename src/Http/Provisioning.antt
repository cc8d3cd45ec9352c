-- ===== src/Http/Provisioning.antt =====
-- POST /write and POST /clear, `handle_write_post` and `handle_clear_post` of http_server.c.
--
-- The static copies of the fields are written before they are read in each call, so they are local
-- here. A body that is NULL is [], as is one with no text.
use roman_firmware.Prelude.{
  ℕ, Bool, false, Option, none, some, ◌++◌, Bytes, codes, ltb, if◌then◌else◌,
}
use roman_firmware.Base64.{base64_encode, is_empty}
use roman_firmware.CString.{ℤ, pos, negsuc, snprintf}
use roman_firmware.Diag
use roman_firmware.Storage.{storage_x25519_pk}
use roman_firmware.Keystore.{
  Status, ok, err_arg, err_mismatch, err_already, err_flash, ClearStatus, clear_ok, clear_empty,
  clear_err_arg, clear_err_denied, clear_err_flash, keystore_writen, keystore_provision,
  keystore_clear,
}
use roman_firmware.Http.Board.{Board, Env, count_up, stage, with_keystore}
use roman_firmware.Http.Json.{json_get_string}
use roman_firmware.Http.Response.{Reply, reply}

abbrev pub form_body_limit : ℕ
form_body_limit = 1024

-- content_length > limit
abbrev pub over : ℕ → ℤ → Bool
over limit (pos n) = ltb limit n
over limit (negsuc n) = false

abbrev pub write_bad : Board → Board
write_bad b = record b { stats = record (b.stats) { write_bad = count_up b.stats.write_bad } }

abbrev pub clear_bad : Board → Board
clear_bad b = record b { stats = record (b.stats) { clear_bad = count_up b.stats.clear_bad } }

abbrev pub too_large : Board → Board
too_large b = record b { stats = record (b.stats) { too_large = count_up b.stats.too_large } }

abbrev pub errors : Board → Board
errors b = record b { stats = record (b.stats) { errors = count_up b.stats.errors } }

-- The answer to a successful provisioning; the X25519 public key is in it if it can be read.
unfoldable pub ok_body : Option Bytes → Bytes
ok_body none = codes "{\"status\":\"ok\",\"writen\":true}"
ok_body (some x_pk) = snprintf 160 (
    codes "{\"status\":\"ok\",\"writen\":true,\"x25519_pk\":\""
    ++ (base64_encode x_pk ++ codes "\"}"))

-- The switch on the result of `keystore_provision`.
unfoldable pub write_status : Status → Board → Reply × Board
write_status ok b = (
  reply 200 (ok_body (storage_x25519_pk b.keystore.store.flash)),
  record b { stats = record (b.stats) { write_ok = count_up b.stats.write_ok } },
)
write_status err_already b =
    (reply 403 (codes "{\"error\":\"already provisioned\",\"writen\":true}"), write_bad b)
write_status err_mismatch b =
    (reply 400 (codes "{\"error\":\"pk does not match sk\"}"), write_bad b)
write_status err_flash b = (reply 500 (codes "{\"error\":\"flash write failed\"}"), errors b)
write_status err_arg b = (reply 400 (codes "{\"error\":\"invalid pk/sk/device_id\"}"), write_bad b)

-- The three fields, each missing or not.
unfoldable pub write_fields :
    Env → Option Bytes → Option Bytes → Option Bytes → Board → Reply × Board
write_fields e none sk id b = (reply 400 (codes "{\"error\":\"Missing field: pk\"}"), write_bad b)
write_fields e (some pk) none id b =
    (reply 400 (codes "{\"error\":\"Missing field: sk\"}"), write_bad b)
write_fields e (some pk) (some sk) none b =
    (reply 400 (codes "{\"error\":\"Missing field: device_id\"}"), write_bad b)
write_fields e (some pk) (some sk) (some id) b =
    let (status, ks) =
      keystore_provision e.crypto e.hardware (some pk) (some sk) (some id)
        (stage Diag.received b).keystore in
    write_status status (with_keystore ks b)

unfoldable pub handle_write_post : Env → Bytes → ℤ → Board → Reply × Board
handle_write_post e body content_length b =
    if keystore_writen b.keystore
    then (reply 403 (codes "{\"error\":\"already provisioned\",\"writen\":true}"), write_bad b)
    else if is_empty body
    then (reply 400 (codes "{\"error\":\"Empty request body\"}"), write_bad b)
    else if over form_body_limit content_length
    then (reply 413 (codes "{\"error\":\"request too large\"}"), too_large b)
    else write_fields e (json_get_string body (codes "pk") 64)
        (json_get_string body (codes "sk") 128) (json_get_string body (codes "device_id") 33) b

-- The switch on the result of `keystore_clear`.
unfoldable pub clear_status : ClearStatus → Board → Reply × Board
clear_status clear_ok b = (
  reply 200 (codes "{\"status\":\"ok\",\"writen\":false}"),
  record b { stats = record (b.stats) { clear_ok = count_up b.stats.clear_ok } },
)
clear_status clear_empty b = (
  reply 200 (codes "{\"status\":\"ok\",\"writen\":false,\"note\":\"nothing stored\"}"),
  record b { stats = record (b.stats) { clear_ok = count_up b.stats.clear_ok } },
)
clear_status clear_err_arg b = (reply 400 (codes "{\"error\":\"invalid ed25519_sk\"}"), clear_bad b)
clear_status clear_err_denied b =
    (reply 403 (codes "{\"error\":\"ed25519_sk does not match\"}"), clear_bad b)
clear_status clear_err_flash b = (reply 500 (codes "{\"error\":\"flash erase failed\"}"), errors b)

-- The field under its documented name, or else under its short one.
unfoldable pub clear_key : Bytes → Option Bytes
clear_key body = elim (json_get_string body (codes "ed25519_sk") 128) [
  | some key ↦ some key
  | none ↦ json_get_string body (codes "sk") 128
]

unfoldable pub clear_field : Env → Option Bytes → Board → Reply × Board
clear_field e none b = (reply 400 (codes "{\"error\":\"Missing field: ed25519_sk\"}"), clear_bad b)
clear_field e (some key) b =
    let (status, ks) = keystore_clear e.crypto e.hardware (some key) b.keystore in
    clear_status status (with_keystore ks b)

unfoldable pub handle_clear_post : Env → Bytes → ℤ → Board → Reply × Board
handle_clear_post e body content_length b =
    if is_empty body
    then (reply 400 (codes "{\"error\":\"Empty request body\"}"), clear_bad b)
    else if over form_body_limit content_length
    then (reply 413 (codes "{\"error\":\"request too large\"}"), too_large b)
    else clear_field e (clear_key body) b
