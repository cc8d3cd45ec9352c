-- ===== src/Http/Provisions.antt =====
-- A blank board that is provisioned over POST /write, and then signs.
use roman_firmware.Prelude.{
  ℕ, ◌≡◌, refl, ◌⊎◌, true, false, arith, none, some, [], ◌∷◌, ◌++◌, Bytes, codes, length,
  length-replicate, replicate,
}
use roman_firmware.Diag.{number}
use roman_firmware.Storage.Randomness.{randombytes, mix64}
use roman_firmware.Base64.{
  record_b64_decode, decode_loop, decode_quartet, read_char, b64_value, triple, quartet_bytes,
  is_empty,
}
use roman_firmware.Record.{
  Fields, record_device_id_valid, all_id_chars, record_encode, record_decode, c_str,
}
use roman_firmware.Bench.{plain_box, plain_box_laws, good_flash_laws, blank}
use roman_firmware.Storage.{
  storage_writen, storage_read, storage_available, storage_write, write_with, le32,
}
use roman_firmware.CString.{pos, snprintf, strchr, strstr}
use roman_firmware.Keystore.{
  keystore_writen, keystore_signing_key, keystore_device_id, keystore_provision,
}
use roman_firmware.Http.Board.{Board}
use roman_firmware.Http.Json.{json_get_string, skip_blanks, open_quote}
use roman_firmware.Http.Provisioning.{write_status, write_fields, handle_write_post}
use roman_firmware.Http.Installing.{Provisioned, write_sound, write_once}
use roman_firmware.Http.Tests.{board_of, bench, blank_board, bench-IsSound}
use roman_firmware.Keystore.Coherence.{stored_fields}
use roman_firmware.Keystore.Invariant.{IsSound}
use roman_firmware.Http.Sign.{
  joined, parse_sign, signature_body, sign_parsed, sign_with_id, sign_with_key, handle_sign_post,
}
use roman_firmware.Http.Wiped.{IsWiped, sign-IsWiped}
use roman_firmware.Http.Response.{reply}
use roman_firmware.Http.Served.{sign-Served}
use roman_firmware.Http.Signing.{Signed, sign_sound}
use roman_firmware.Http.Keeps.{Keeps-write}
use roman_firmware.Http.Connection.{Server, err_ok, http_recv_cb, http_accept_cb}
use roman_firmware.Http.Callbacks.{no_entries, IsWellFormed}
use roman_firmware.Http.Table.{Reach, here, next, accept, recv}
use roman_firmware.Http.Unchanged.{flash_of, Same-sign}
use roman_firmware.Http.Locked.{Opened, Reach-Locked}

abbrev write_body : Bytes
write_body =
    codes "{\"pk\":\""
    ++ (replicate 43 b'A'
        ++ (codes "=\",\"sk\":\"" ++ (replicate 86 b'A' ++ codes "==\",\"device_id\":\"dev-01\"}")))

provisions : (handle_write_post bench write_body (pos 0) blank_board).0.status ≡ 200
unfolding handle_write_post write_fields write_status keystore_writen is_empty json_get_string
    strstr strchr skip_blanks open_quote snprintf keystore_provision record_b64_decode decode_loop
    decode_quartet read_char b64_value triple quartet_bytes storage_writen record_device_id_valid
    all_id_chars record_encode storage_write write_with randombytes number mix64 le32
provisions = refl

abbrev pub written : Board
written = (handle_write_post bench write_body (pos 0) blank_board).1

blank_size : length blank.store.flash ≡ 4096
blank_size = length-replicate {A = ℕ} 4096 0xFF

write_sound_example :
    (pk : Bytes) × (sk : Bytes) × (id : Bytes) × (json_get_string write_body (codes "pk") 64
      ≡ some pk)
    × (json_get_string write_body (codes "sk") 128 ≡ some sk)
    × (json_get_string write_body (codes "device_id") 33 ≡ some id)
    × Provisioned bench pk sk id blank_board written
write_sound_example =
    write_sound bench write_body (pos 0) blank_board plain_box_laws good_flash_laws blank_size
      provisions

abbrev sign_body : Bytes
sign_body = codes "{\"challenge\":\"c\",\"context\":\"x\",\"timestamp\":\"t\"}"

-- The same board after it has signed once.
abbrev signed_once : Board
signed_once = (handle_sign_post bench sign_body written).1

signs_flash : flash_of signed_once ≡ flash_of written
signs_flash = Same-sign bench sign_body written

write_once_example :
    (let (r, b') = handle_write_post bench [] (pos 0) signed_once in
      (r.status ≡ 403) × (b'.keystore ≡ signed_once.keystore))
write_once_example =
    write_once bench bench write_body [] (pos 0) (pos 0) blank_board signed_once plain_box_laws
      good_flash_laws blank_size provisions signs_flash

pub written-IsSound : IsSound plain_box written.keystore
written-IsSound =
    Keeps-write bench plain_box_laws good_flash_laws blank_board bench-IsSound write_body (pos 0)

signs : (handle_sign_post bench sign_body written).0.status ≡ 200
unfolding handle_sign_post handle_write_post write_fields write_status keystore_writen is_empty
    json_get_string strstr strchr skip_blanks open_quote snprintf keystore_provision
    record_b64_decode decode_loop decode_quartet read_char b64_value triple quartet_bytes
    storage_writen record_device_id_valid all_id_chars record_encode storage_write write_with
    randombytes number mix64 le32 sign_with_key keystore_signing_key storage_read storage_available
    record_decode c_str sign_with_id keystore_device_id sign_parsed parse_sign
signs = refl

sign_sound_example :
    (f : Fields) × (stored_fields plain_box written.keystore.store.flash ≡ some f)
    × Signed bench sign_body f (handle_sign_post bench sign_body written).0.body
sign_sound_example =
    sign_sound bench sign_body written (record { agrees = written-IsSound.agrees }) signs

abbrev written_fields : Fields
written_fields = record { pk = replicate 32 0; sk = replicate 64 0; device_id = codes "dev-01" }

written_stored : stored_fields plain_box written.keystore.store.flash ≡ some written_fields
unfolding handle_write_post write_fields write_status keystore_writen is_empty json_get_string
    strstr strchr skip_blanks open_quote snprintf keystore_provision record_b64_decode decode_loop
    decode_quartet read_char b64_value triple quartet_bytes storage_writen record_device_id_valid
    all_id_chars record_encode storage_write write_with randombytes number mix64 le32 storage_read
    storage_available record_decode c_str stored_fields
written_stored = refl

sign_body_fields :
    (json_get_string sign_body (codes "challenge") 256 ≡ some (codes "c"))
    × (json_get_string sign_body (codes "context") 128 ≡ some (codes "x"))
    × (json_get_string sign_body (codes "timestamp") 128 ≡ some (codes "t"))
    × (is_empty sign_body ≡ false)
unfolding json_get_string strstr strchr skip_blanks open_quote snprintf is_empty
sign_body_fields = (refl, refl, refl, refl)

sign-Served_example :
    (handle_sign_post bench sign_body written).0
    ≡ reply 200 (
        signature_body
          (plain_box.crypto_sign
            (joined (codes "c") (codes "x") (codes "t") (codes "dev-01"))
            (replicate 64 0))
          (codes "t")
          (codes "dev-01"))
sign-Served_example =
    sign-Served bench sign_body (codes "c") (codes "x") (codes "t") written_fields written
      written-IsSound written_stored (omega arith) sign_body_fields.3 sign_body_fields.0
      sign_body_fields.1 sign_body_fields.2 (omega arith)

-- The provisioned keystore, before the first signature.
abbrev provisioned_board : Board
provisioned_board = board_of written.keystore

sign-IsWiped_example : IsWiped (handle_sign_post bench sign_body provisioned_board).1
sign-IsWiped_example = sign-IsWiped bench sign_body provisioned_board refl

-- The provisioned board, with no connections.
abbrev restarted : Server
restarted = record { board = written; http_states = none ∷ none ∷ none ∷ [] }

pub written_flag : storage_writen (flash_of written) ≡ true
written_flag = written-IsSound.flagged written_fields written_stored

restarted-IsWellFormed : IsWellFormed plain_box restarted
restarted-IsWellFormed = record { slots = refl; live = no_entries; sound = written-IsSound }

-- A connection comes in, and asks to provision the board again.
abbrev connected : Server
connected = (http_accept_cb bench true (some 7) restarted).1.1

abbrev again : Bytes
again = codes "POST /write HTTP/1.1\r\n\r\n"

abbrev asked : Server
asked = (http_recv_cb bench true (some 0) (some again) err_ok connected).1.1

asked_again : Reach plain_box restarted asked
asked_again =
    next (next here (accept bench true (some 7) restarted))
      (recv bench true (some 0) (some again) err_ok connected refl good_flash_laws)

Reach-Locked_example :
    (flash_of asked.board ≡ flash_of written) ⊎ Opened (flash_of written) asked_again
Reach-Locked_example =
    Reach-Locked plain_box restarted asked asked_again plain_box_laws restarted-IsWellFormed
      written_flag
