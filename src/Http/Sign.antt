-- ===== src/Http/Sign.antt =====
-- POST /sign, `handle_sign_post` of http_server.c.
--
-- The static copies of the fields are written before they are read in each call, so they are local
-- here. The copy of the secret key is kept in the board's `signing_sk`.
use roman_firmware.Prelude.{
  Option, none, some, ◌++◌, Bytes, codes, length, take, replicate, leb, if◌then◌else◌,
}
use roman_firmware.Base64.{base64_encode, is_empty}
use roman_firmware.CString.{snprintf}
use roman_firmware.Diag
use roman_firmware.Led.{led_signal_signing}
use roman_firmware.Keystore.{keystore_signing_key, keystore_device_id}
use roman_firmware.Http.Board.{Board, Env, count_up, stage, with_keystore}
use roman_firmware.Http.Json.{json_get_string}
use roman_firmware.Http.Response.{Reply, reply}

-- The fields of the body: an error text, or the message to sign with its timestamp.
pub data Parsed : Type 0 where
  refused : Bytes → Parsed
  message : Bytes → Bytes → Parsed

-- A field that is there, or the error for it.
abbrev pub field : Option Bytes → Bytes → (Bytes → Parsed) → Parsed
field none error next = refused error
field (some value) error next = next value

abbrev pub colon : Bytes
colon = codes ":"

-- "%s:%s:%s:%s"
abbrev pub joined : Bytes → Bytes → Bytes → Bytes → Bytes
joined challenge context timestamp device_id =
    challenge ++ (colon ++ (context ++ (colon ++ (timestamp ++ (colon ++ device_id)))))

unfoldable pub parse_sign : Bytes → Bytes → Parsed
parse_sign body device_id =
    field (json_get_string body (codes "challenge") 256)
      (codes "{\"error\":\"Missing field: challenge\"}")
      λ challenge.
        field (json_get_string body (codes "context") 128)
          (codes "{\"error\":\"Missing field: context\"}")
          λ context.
            field (json_get_string body (codes "timestamp") 128)
              (codes "{\"error\":\"Missing field: timestamp\"}")
              λ timestamp.
                let text = joined challenge context timestamp device_id in
                if leb 1024 (length text)
                then refused (codes "{\"error\":\"Message too long\"}")
                else message text timestamp

-- The body of a reply with status 200.
unfoldable pub signature_body : Bytes → Bytes → Bytes → Bytes
signature_body sm timestamp device_id = snprintf 1024 (
    codes "{\"signature\":\""
    ++ (base64_encode (take 64 sm)
        ++ (codes "\",\"timestamp\":\""
            ++ (timestamp ++ (codes "\",\"device_id\":\"" ++ (device_id ++ codes "\"}"))))))

-- WEB_STAT(sign_bad) and a refusal, with the copy of the key wiped if there was one.
abbrev pub bad : Board → Board
bad b = record b { stats = record (b.stats) { sign_bad = count_up b.stats.sign_bad } }

abbrev pub wiped : Board → Board
wiped b = record b { signing_sk = replicate 64 0 }

-- From the parsed fields on.
unfoldable pub sign_parsed : Env → Bytes → Bytes → Parsed → Board → Reply × Board
sign_parsed e sk device_id (refused error) b = (reply 400 error, bad (wiped b))
sign_parsed e sk device_id (message text timestamp) b =
    let sm = e.crypto.crypto_sign text sk in
    let b = stage Diag.sign_reply (wiped (stage Diag.sign_crypto b)) in
    let b = record b { stats = record (b.stats) { sign_ok = count_up b.stats.sign_ok } } in
    (reply 200 (signature_body sm timestamp device_id), stage Diag.sign_done b)

-- From the device id on.
unfoldable pub sign_with_id : Env → Bytes → Bytes → Option Bytes → Board → Reply × Board
sign_with_id e body sk none b =
    (reply 503 (codes "{\"error\":\"stored record is corrupt\"}"), bad (wiped b))
sign_with_id e body sk (some device_id) b =
    sign_parsed e sk device_id (parse_sign body device_id) (stage Diag.sign_parse b)

-- From the signing key on.
unfoldable pub sign_with_key : Env → Bytes → Option Bytes → Board → Reply × Board
sign_with_key e body none b =
    (reply 503 (codes "{\"error\":\"not provisioned\",\"hint\":\"POST /write first\"}"), bad b)
sign_with_key e body (some sk) b =
    let (device_id, ks) = keystore_device_id e.crypto 33 b.keystore in
    sign_with_id e body sk device_id (record (with_keystore ks b) { signing_sk = sk })

-- A body that is NULL is [], as is one with no text.
unfoldable pub handle_sign_post : Env → Bytes → Board → Reply × Board
handle_sign_post e body b =
    let b = stage Diag.sign_enter (record b { led = led_signal_signing e.timer e.now b.led }) in
    let (sk, ks) = keystore_signing_key e.crypto (stage Diag.sign_key b).keystore in
    if is_empty body
    then (reply 400 (codes "{\"error\":\"Empty request body\"}"), bad b)
    else sign_with_key e body sk (with_keystore ks b)
