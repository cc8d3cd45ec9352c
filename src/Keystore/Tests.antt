-- ===== src/Keystore/Tests.antt =====
-- Provisioning a blank board, and clearing it again.
use roman_firmware.Prelude.{
  ℕ, ◌≡◌, refl, ◌⊎◌, inl, true, false, some, [], ◌∷◌, ◌++◌, codes, Bytes, length-replicate,
  replicate,
}
use roman_firmware.Diag.{number}
use roman_firmware.Storage.Randomness.{randombytes, mix64}
use roman_firmware.Base64.{
  b64_decode, record_b64_decode, decode_loop, decode_quartet, read_char, b64_value, triple,
  quartet_bytes,
}
use roman_firmware.Record.{
  Fields, device_id_valid, record_device_id_valid, all_id_chars, record_encode,
}
use roman_firmware.Bench.{plain_box, plain_box_laws, good_flash, good_flash_laws, blank}
use roman_firmware.Storage.{storage_writen, storage_write, write_with, le32}
use roman_firmware.Storage.Write.{IsErased}
use roman_firmware.Keystore.{Keystore, ok, clear_ok, keystore_provision, keystore_clear}
use roman_firmware.Keystore.Accepts.{IsWorking, provision-Accepts}
use roman_firmware.Keystore.Provision.{Installed, provision_sound}
use roman_firmware.Keystore.Coherence.{stored_fields, IsCoherent}
use roman_firmware.Keystore.Clear.{Presents, clear_authorised}

-- 32 and 64 zero bytes.
abbrev pub pk_text : Bytes
pk_text = replicate 43 b'A' ++ b'=' ∷ []

abbrev pub sk_text : Bytes
sk_text = replicate 86 b'A' ++ b'=' ∷ b'=' ∷ []

abbrev pub dev_01 : Bytes
dev_01 = codes "dev-01"

unfoldable pub provisioned_board : Keystore
provisioned_board =
    (keystore_provision plain_box good_flash (some pk_text) (some sk_text) (some dev_01) blank).1

provisions :
    (keystore_provision plain_box good_flash (some pk_text) (some sk_text) (some dev_01) blank).0
    ≡ ok
unfolding keystore_provision record_b64_decode decode_loop decode_quartet read_char b64_value triple
    quartet_bytes storage_writen record_device_id_valid all_id_chars record_encode storage_write
    write_with randombytes number mix64 le32
provisions = refl

pub installed :
    (storage_writen blank.store.flash ≡ false)
    × (device_id_valid dev_01 ≡ true)
    × Installed plain_box pk_text sk_text dev_01 provisioned_board
unfolding provisioned_board
installed =
    provision_sound plain_box good_flash pk_text sk_text dev_01 blank plain_box_laws good_flash_laws
      (length-replicate {A = ℕ} 4096 0xFF) provisions

provision_sound_example :
    (storage_writen blank.store.flash ≡ false)
    × (device_id_valid dev_01 ≡ true)
    × Installed plain_box pk_text sk_text dev_01
        (keystore_provision plain_box good_flash
          (some pk_text)
          (some sk_text)
          (some dev_01)
          blank).1
provision_sound_example =
    provision_sound plain_box good_flash pk_text sk_text dev_01 blank plain_box_laws good_flash_laws
      (length-replicate {A = ℕ} 4096 0xFF) provisions

bench_works : IsWorking plain_box good_flash
bench_works = record {
  keys = λ seed. ((replicate 32 1, replicate 32 2), refl);
  boxes = λ m n p s. (_, refl);
  runs = λ f flash. refl;
}

zero_keys :
    (b64_decode pk_text 32 ≡ some (replicate 32 0))
    × (b64_decode sk_text 64 ≡ some (replicate 64 0))
    × (storage_writen blank.store.flash ≡ false)
    × (device_id_valid dev_01 ≡ true)
unfolding decode_loop decode_quartet read_char b64_value triple quartet_bytes storage_writen
    device_id_valid all_id_chars b64_decode
zero_keys = (refl, refl, refl, refl)

provision-Accepts_example :
    (keystore_provision plain_box good_flash (some pk_text) (some sk_text) (some dev_01) blank).0
    ≡ ok
provision-Accepts_example =
    provision-Accepts plain_box good_flash pk_text sk_text dev_01 (replicate 32 0) (replicate 64 0)
      blank plain_box_laws bench_works zero_keys.2 zero_keys.3 zero_keys.0 refl (inl zero_keys.1)
      refl refl

board-IsCoherent : IsCoherent plain_box provisioned_board
board-IsCoherent = record { agrees = λ e. cc (installed.2.6.fresh) }

clear_authorised_example :
    (let (status, ks') = keystore_clear plain_box good_flash (some sk_text) provisioned_board in
      (ks'.store.flash ≡ provisioned_board.store.flash)
      ⊎ (status ≡ clear_ok)
        × ((f : Fields) × (given : Bytes) × (stored_fields plain_box provisioned_board.store.flash
              ≡ some f)
            × (b64_decode sk_text 64 ≡ some given)
            × Presents given f.sk)
        × IsErased ks'.store.flash)
clear_authorised_example =
    clear_authorised plain_box good_flash sk_text provisioned_board plain_box_laws good_flash_laws
      board-IsCoherent installed.2.6.size
