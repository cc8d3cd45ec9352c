-- ===== src/Http/Served.antt =====
-- POST /sign serves: on a provisioned board, a request with its three fields is signed.
use roman_firmware.Prelude.{
  ◌+◌, ◌≤◌, ◌<◌, ◌≡◌, refl, ap, ◌∙◌, inl, inr, false, some, Bytes, codes, arith, length, leb, ltb,
  le→ltb,
}
use roman_firmware.Base64.{is_empty}
use roman_firmware.Record.{Fields}
use roman_firmware.Diag
use roman_firmware.Led.{led_signal_signing}
use roman_firmware.Storage.{Crypto}
use roman_firmware.Keystore.{
  Keystore, at_stage, keystore_load, keystore_signing_key, keystore_device_id,
}
use roman_firmware.Keystore.Coherence.{stored_fields, cached, load_exact}
use roman_firmware.Keystore.Invariant.{IsSound, stage-IsSound, signing_key-IsSound}
use roman_firmware.Http.Board.{Board, Env, stage, with_keystore}
use roman_firmware.Http.Json.{json_get_string}
use roman_firmware.Http.Response.{Reply, reply}
use roman_firmware.Http.Sign.{
  message, joined, parse_sign, signature_body, sign_parsed, sign_with_id, sign_with_key,
  handle_sign_post,
}
use roman_firmware.Http.Signing.{same_fields}

-- What is handed out of a board that holds the record `f`.
module _ (c : Crypto) (ks : Keystore) (s : IsSound c ks) (f : Fields)
    (stored : stored_fields c ks.store.flash ≡ some f) where
  key_found : (keystore_signing_key c ks).0 ≡ some f.sk
  unfolding keystore_signing_key
  key_found = elim (load_exact c ks (record { agrees = s.agrees })) [
    | inr (failed, nothing) ↦ cc
    | inl (found, fields) ↦
        let same : cached (keystore_load c ks).1 ≡ f = cc in
        rw (found, keystore_signing_key) (ap (λ (g : Fields). some g.sk) same)
  ]

  id_found : length f.device_id ≤ 32 → (keystore_device_id c 33 ks).0 ≡ some f.device_id
  unfolding keystore_device_id
  id_found short = elim (load_exact c ks (record { agrees = s.agrees })) [
    | inr (failed, nothing) ↦ cc
    | inl (found, fields) ↦
        let same : cached (keystore_load c ks).1 ≡ f = cc in
        let at_id = ap (λ (g : Fields). g.device_id) same in
        let fits : ltb 33 (length (keystore_load c ks).1.cached_id + 1) ≡ false =
          le→ltb 33 _ (omega (arith, ap length at_id)) in
        rw (found, fits, keystore_device_id) (ap some at_id)
  ]

module _ (e : Env) (body challenge context timestamp sk id : Bytes)
    (has_c : json_get_string body (codes "challenge") 256 ≡ some challenge)
    (has_x : json_get_string body (codes "context") 128 ≡ some context)
    (has_t : json_get_string body (codes "timestamp") 128 ≡ some timestamp)
    (fits : length (joined challenge context timestamp id) < 1024) where
  parse_served : parse_sign body id ≡ message (joined challenge context timestamp id) timestamp
  unfolding parse_sign
  parse_served =
      let short : leb 1024 (length (joined challenge context timestamp id)) ≡ false =
        ground arith in
      rw (has_c, has_x, has_t, short, parse_sign) refl

  abbrev signed : Reply
  signed = reply 200 (
      signature_body (e.crypto.crypto_sign (joined challenge context timestamp id) sk) timestamp id)

  id_served : (b : Board) → (sign_with_id e body sk (some id) b).0 ≡ signed
  unfolding sign_with_id sign_parsed
  id_served b = ap (λ p. (sign_parsed e sk id p (stage Diag.sign_parse b)).0) parse_served

  key_served :
      (b : Board)
      → (keystore_device_id e.crypto 33 b.keystore).0 ≡ some id
      → (sign_with_key e body (some sk) b).0 ≡ signed
  unfolding sign_with_key
  key_served b found =
      let (_, ks) = keystore_device_id e.crypto 33 b.keystore in
      let b' : Board = record (with_keystore ks b) { signing_sk = sk } in
      ap (λ o. (sign_with_id e body sk o b').0) found ∙ id_served b'

-- POST /sign on a board that holds the record `f`, with an id of at most 32 bytes: if the three fields
-- are in the body, and "challenge:context:timestamp:id" has less than 1024 bytes, the answer is 200
-- with the signature of that text by the secret key of `f`. The keystore is sound.
pub sign-Served :
    (e : Env) (body challenge context timestamp : Bytes) (f : Fields) (b : Board)
    → IsSound e.crypto b.keystore
    → stored_fields e.crypto b.keystore.store.flash ≡ some f
    → length f.device_id ≤ 32
    → is_empty body ≡ false
    → json_get_string body (codes "challenge") 256 ≡ some challenge
    → json_get_string body (codes "context") 128 ≡ some context
    → json_get_string body (codes "timestamp") 128 ≡ some timestamp
    → length (joined challenge context timestamp f.device_id) < 1024
    → (let text = joined challenge context timestamp f.device_id in
        (handle_sign_post e body b).0
        ≡ reply 200 (signature_body (e.crypto.crypto_sign text f.sk) timestamp f.device_id))
unfolding handle_sign_post at_stage
sign-Served e body challenge context timestamp f b s stored short something has_c has_x has_t fits =
    let ks0 = at_stage Diag.sign_key (at_stage Diag.sign_enter b.keystore) in
    let s0 =
      stage-IsSound e.crypto Diag.sign_key (at_stage Diag.sign_enter b.keystore)
        (stage-IsSound e.crypto Diag.sign_enter b.keystore s) in
    let key = key_found e.crypto ks0 s0 f stored in
    let id =
      id_found e.crypto (keystore_signing_key e.crypto ks0).1 (signing_key-IsSound e.crypto ks0 s0)
        f (same_fields e.crypto ks0 ∙ stored) short in
    let entered : Board = record (with_keystore (keystore_signing_key e.crypto ks0).1 b) {
      led = led_signal_signing e.timer e.now b.led;
    } in
    rw (something, handle_sign_post)
      (ap (λ o. (sign_with_key e body o entered).0) key
        ∙ key_served e body challenge context timestamp f.sk f.device_id has_c has_x has_t fits
            entered id)
