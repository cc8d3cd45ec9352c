-- ===== src/Keystore/Accepts.antt =====
-- keystore_provision takes what is valid: the converse of Keystore/Provision.
use roman_firmware.Prelude.{
  ◌+◌, ◌≡◌, refl, ◌∙◌, inl, inr, true, false, some, ◌++◌, arith, Bytes, length, length-append, take,
  drop, bytes_eq_refl, ◌==◌, ==_iff,
}
use roman_firmware.Base64.{b64_decode, record_b64_decode, is_empty}
use roman_firmware.Record.{device_id_valid, record_device_id_valid, record_max}
use roman_firmware.Record.DeviceId.{device_id_valid_iff}
use roman_firmware.Record.RoundTrip.{payload, record_encode_layout}
use roman_firmware.Diag
use roman_firmware.Storage.{Crypto, Hardware, storage_writen}
use roman_firmware.Storage.Assumptions.{CryptoLaws}
use roman_firmware.Storage.Write.{Boxes, write_total}
use roman_firmware.Keystore.{
  Keystore, ok, at_stage, store_record, check_pair, with_sk, with_pk, keystore_provision,
}
use roman_firmware.Keystore.Provision.{Secret}

-- crypto_box_keypair returns 0, crypto_box on every message behind 32 zero bytes, and the flash
-- callbacks run.
pub record IsWorking (c : Crypto) (hw : Hardware) : Type 0 where
  pub keys : (seed : Bytes) → (pair : Bytes × Bytes) × (c.crypto_box_keypair seed ≡ some pair)
  pub boxes : Boxes c
  pub runs : (f : Bytes → Bytes) (flash : Bytes) → (hw.flash_safe_execute f flash).0 ≡ true

module _ (c : Crypto) (hw : Hardware) (laws : CryptoLaws c) (works : IsWorking c hw)
    (id pk sk : Bytes) (valid : device_id_valid id ≡ true) (pk_size : length pk ≡ 32)
    (sk_size : length sk ≡ 64) (half : drop 32 sk ≡ pk) where
  record-Accepts : (ks : Keystore) → (store_record c hw pk sk (some id) ks).0 ≡ ok
  unfolding store_record is_empty
  record-Accepts ks =
      let (lo, hi, _) = (device_id_valid_iff id).0 valid in
      let layout = record_encode_layout record_max pk sk id pk_size sk_size valid (omega arith) in
      let size : length (payload pk sk id) ≡ 98 + length id =
        omega (arith, length-append pk (sk ++ id), length-append sk id) in
      let written =
        (write_total c hw (payload pk sk id) (at_stage Diag.pair_ok ks).store works.keys works.boxes
            works.runs).0
          (omega arith) (omega arith) in
      rw (layout, written, store_record) refl

  pair-Accepts : (ks : Keystore) → (check_pair c hw pk sk (some id) ks).0 ≡ ok
  unfolding check_pair at_stage
  pair-Accepts ks =
      let same : c.crypto_verify_32 (drop 32 sk) pk ≡ true =
        laws.verify_compares (drop 32 sk) pk ∙ rw half (bytes_eq_refl (take 32 pk)) in
      rw (same, check_pair) (record-Accepts (at_stage Diag.pair_check ks))

-- A blank board takes a record: where the flag is not set, the id is valid, the public key is 32 bytes
-- in base64, and the secret key 64 bytes with the public key in the second half, or the 32 byte seed
-- of it, keystore_provision succeeds. crypto_box_keypair returns 0, crypto_box returns 0 on every
-- message behind 32 zero bytes, crypto_verify_32 compares, and the flash callbacks run.
pub provision-Accepts :
    (c : Crypto) (hw : Hardware) (p s id pk sk : Bytes) (ks : Keystore)
    → CryptoLaws c
    → IsWorking c hw
    → storage_writen ks.store.flash ≡ false
    → device_id_valid id ≡ true
    → b64_decode p 32 ≡ some pk
    → length pk ≡ 32
    → Secret s pk sk
    → length sk ≡ 64
    → drop 32 sk ≡ pk
    → (keystore_provision c hw (some p) (some s) (some id) ks).0 ≡ ok
unfolding keystore_provision record_device_id_valid record_b64_decode with_pk with_sk
provision-Accepts c hw p s id pk sk ks laws works unset valid at_p pk_size (inl at_s) sk_size half =
    let whole : (length pk == 32) ≡ true = (==_iff _ _).1 pk_size in
    let not_seed : (length sk == 32) ≡ false = ground arith in
    let full : (length sk == 64) ≡ true = (==_iff _ _).1 sk_size in
    rw (unset, valid, at_p, whole, at_s, not_seed, full, keystore_provision)
      (pair-Accepts c hw laws works id pk sk valid pk_size sk_size half
        (at_stage Diag.fields_ok ks))
provision-Accepts c hw p s id pk sk ks laws works unset valid at_p pk_size
      (inr (seed, at_s, len, same)) sk_size half =
    let whole : (length pk == 32) ≡ true = (==_iff _ _).1 pk_size in
    let is_seed : (length seed == 32) ≡ true = (==_iff _ _).1 len in
    rw (unset, valid, at_p, whole, at_s, is_seed, keystore_provision)
      (rw⁻¹ same (
        pair-Accepts c hw laws works id pk sk valid pk_size sk_size half
          (at_stage Diag.fields_ok ks)))
