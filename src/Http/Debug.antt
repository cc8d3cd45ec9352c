-- ===== src/Http/Debug.antt =====
-- GET /info and POST /debug: `handle_info`, `debug_snapshot` and `handle_debug` of
-- http_server.c. A body that is NULL is [], as is one with no text.
use roman_firmware.Prelude.{
  ℕ, true, not, ◌||◌, Option, none, some, [], ◌∷◌, Bytes, codes, length, bytes_eq, leb,
  if◌then◌else◌,
}
use roman_firmware.Base64.{is_empty}
use roman_firmware.CString.{ℤ, concat, snprintf}
use roman_firmware.Stack.{stack_check}
use roman_firmware.Storage.{storage_clear}
use roman_firmware.Keystore.{
  State, empty, provisioned, corrupt, keystore_state, keystore_device_id, keystore_public_key,
  keystore_invalidate,
}
use roman_firmware.Http.Board.{Board, Env, with_keystore}
use roman_firmware.Http.Json.{json_get_string}
use roman_firmware.Http.Provisioning.{over, too_large, errors}
use roman_firmware.Http.Response.{Reply, reply}
use roman_firmware.Http.Snapshot.{id_json, snapshot_text}

-- `storage_state_name` on the result of keystore_state
unfoldable pub storage_state_name : State → Bytes
storage_state_name provisioned = codes "provisioned"
storage_state_name corrupt = codes "corrupt"
storage_state_name empty = codes "empty"

unfoldable pub handle_info : Env → Board → Reply × Board
handle_info e b =
    let (device_id, ks) = keystore_device_id e.crypto 33 b.keystore in
    let (state, ks) = keystore_state e.crypto ks in
    (
      reply 200 (
          snprintf 320 (
            concat (
              codes "{\"device\":\"pico2\",\"firmware\":\"roman\",\"version\":\""
              ∷ e.version
              ∷ codes "\",\"engine\":\"C/tweetnacl\",\"id\":"
              ∷ id_json device_id
              ∷ codes ",\"storage\":\""
              ∷ storage_state_name state
              ∷ codes "\"}"
              ∷ []))),
      with_keystore ks b,
    )

-- The check of what snprintf returned, and the reply.
unfoldable pub finish_snapshot : Bytes → Board → Reply × Board
finish_snapshot text b =
    if leb 1280 (length text)
    then (reply 500 (codes "{\"status\":\"error\",\"error\":\"debug overflow\"}"), errors b)
    else (reply 200 text, b)

unfoldable pub debug_snapshot : Env → ℕ → Board → Reply × Board
debug_snapshot e conns b0 =
    let b = record b0 { stack = stack_check b0.stack } in
    let (pk, ks) = keystore_public_key e.crypto b.keystore in
    let (device_id, ks) = keystore_device_id e.crypto 33 ks in
    let b = with_keystore ks b in finish_snapshot (snapshot_text e conns pk device_id b) b

-- The action "clear".
unfoldable pub debug_clear : Env → Board → Reply × Board
debug_clear e b =
    let (erased, store) = storage_clear e.hardware b.keystore.store in
    let ks = record (b.keystore) { store = store } in
    if not erased
    then (
      reply 500 (codes "{\"status\":\"error\",\"error\":\"flash erase failed\"}"),
      errors (with_keystore ks b),
    )
    else (
      reply 200 (codes "{\"status\":\"ok\",\"action\":\"clear\",\"writen\":false}"),
      with_keystore (keystore_invalidate ks) b,
    )

unfoldable pub debug_action : Env → ℕ → Option Bytes → Board → Reply × Board
debug_action e conns none b = debug_snapshot e conns b
debug_action e conns (some action) b =
    if is_empty action || bytes_eq action (codes "snapshot")
    then debug_snapshot e conns b
    else if bytes_eq action (codes "clear")
    then debug_clear e b
    else if bytes_eq action (codes "reset")
    then (
      record {
        status = 200;
        body = codes "{\"status\":\"ok\",\"action\":\"reset\",\"note\":\"rebooting\"}";
        reset = true;
      },
      b,
    )
    else (reply 400 (codes "{\"status\":\"error\",\"error\":\"unknown action\"}"), b)

-- `conns` is how many entries of the connection table are in use.
unfoldable pub handle_debug : Env → ℕ → Bytes → ℤ → Board → Reply × Board
handle_debug e conns body content_length b =
    if over 256 content_length
    then (reply 413 (codes "{\"status\":\"error\",\"error\":\"request too large\"}"), too_large b)
    else if is_empty body
    then debug_snapshot e conns b
    else debug_action e conns (json_get_string body (codes "action") 16) b
