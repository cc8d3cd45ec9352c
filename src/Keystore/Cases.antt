-- ===== src/Keystore/Cases.antt =====
-- The ways in which `keystore_provision` ends.
use roman_firmware.Prelude.{
  ℕ, ◌≡◌, refl, ◌⊎◌, inl, inr, true, false, ◌||◌, Option, none, some, [], ◌∷◌, ◌++◌, arith, Bytes,
  length, ltb, drop, ◌==◌, Bool-cases,
}
use roman_firmware.Base64.{is_empty, record_b64_decode}
use roman_firmware.Record.{record_encode, record_max, record_device_id_valid}
use roman_firmware.Diag
use roman_firmware.Diag.{diag_stage}
use roman_firmware.Storage.{Crypto, Hardware, Store, storage_writen, storage_write}
use roman_firmware.Storage.Assumptions.{CryptoLaws, HardwareLaws}
use roman_firmware.Storage.Write.{IsErased, read-write}
use roman_firmware.Keystore.{
  Status, ok, err_arg, err_mismatch, err_flash, Keystore, at_stage, keystore_invalidate,
  store_record, check_pair, with_sk, with_pk, keystore_provision,
}

-- The keystore with another progress marker.
abbrev pub marked : ℕ → Keystore → Keystore
marked n ks = record ks { store = record (ks.store) { scratch = n } }

-- A result before anything is written.
abbrev pub IsRefusal : Status → Type 0
IsRefusal status = (status ≡ err_arg) ⊎ (status ≡ err_mismatch)

module _ (c : Crypto) (hw : Hardware) (laws : CryptoLaws c) (hl : HardwareLaws hw) where
  -- What a write of any length leaves behind.
  pub any_write :
      (src : Bytes) (st : Store)
      → is_empty src ≡ false
      → length st.flash ≡ 4096
      → (let (written, st') = storage_write c hw src st in
          (written ≡ true) × (storage_writen st'.flash ≡ true) × (length st'.flash ≡ 4096)
          ⊎ (written ≡ false) × ((st'.flash ≡ st.flash) ⊎ IsErased st'.flash))
  unfolding is_empty
  any_write [] st some_ size = cc
  any_write (x ∷ src) st some_ size = elim (Bool-cases (ltb 232 (length (x ∷ src)))) [
    | inl large ↦
        let refused : (length (x ∷ src) == 0 || ltb 232 (length (x ∷ src))) ≡ true = ground arith in
        unfold storage_write in rw (refused, storage_write) (inr (refl, inl refl))
    | inr fits ↦ elim (read-write c hw (x ∷ src) st laws hl (omega arith) (ground arith) size) [
      | inl (written, flag, reads, size') ↦ inl (written, flag, size')
      | inr left ↦ inr left
    ]
  ]

  -- Each of the three ends of a provisioning that is not refused for the flag. `ks` is the keystore
  -- before, at whatever marker.
  module _ (P : Status × Keystore → Type 0) (id : Bytes) (ks : Keystore)
      (size : length ks.store.flash ≡ 4096)
      (refused : (status : Status) (n : ℕ) → IsRefusal status → P (status, marked n ks))
      (failed : (st : Store)
        → (st.flash ≡ ks.store.flash) ⊎ IsErased st.flash
        → P (err_flash, record ks { store = st }))
      (stored : (st : Store)
        → storage_writen st.flash ≡ true
        → length st.flash ≡ 4096
        → P (ok, keystore_invalidate (at_stage Diag.done (record ks { store = st })))) where
    record-each : (pk sk : Bytes) (n : ℕ) → P (store_record c hw pk sk (some id) (marked n ks))
    unfolding store_record at_stage
    record-each pk sk n =
        let src = record_encode record_max pk sk (some id) in
        let at_pair = marked (diag_stage Diag.pair_ok) ks in
        elim (Bool-cases (is_empty src)) [
          | inl nothing ↦
              rw (nothing, store_record) (refused err_arg (diag_stage Diag.pair_ok) (inl refl))
          | inr something ↦ elim (any_write src at_pair.store something size) [
            | inl (written, flag, size') ↦
                rw (something, written, store_record)
                  (stored (storage_write c hw src at_pair.store).1 flag size')
            | inr (not_written, left) ↦
                rw (something, not_written, store_record)
                  (failed (storage_write c hw src at_pair.store).1 left)
          ]
        ]

    pair-each : (pk sk : Bytes) (n : ℕ) → P (check_pair c hw pk sk (some id) (marked n ks))
    unfolding check_pair at_stage
    pair-each pk sk n = elim (Bool-cases (c.crypto_verify_32 (drop 32 sk) pk)) [
      | inl same ↦ rw (same, check_pair) (record-each pk sk (diag_stage Diag.pair_check))
      | inr other ↦
          rw (other, check_pair) (refused err_mismatch (diag_stage Diag.pair_check) (inr refl))
    ]

    sk-each :
        (pk : Bytes) (sk : Option Bytes) (n : ℕ) → P (with_sk c hw pk sk (some id) (marked n ks))
    unfolding with_sk
    sk-each pk none n = refused err_arg n (inl refl)
    sk-each pk (some sk) n = elim (Bool-cases (length sk == 32)) [
      | inl seed ↦ rw (seed, with_sk) (pair-each pk (sk ++ pk) n)
      | inr not_seed ↦ elim (Bool-cases (length sk == 64)) [
        | inl whole ↦ rw (not_seed, whole, with_sk) (pair-each pk sk n)
        | inr other ↦ rw (not_seed, other, with_sk) (refused err_arg n (inl refl))
      ]
    ]

    pk-each :
        (pk sk_b64 : Option Bytes) (n : ℕ) → P (with_pk c hw pk sk_b64 (some id) (marked n ks))
    unfolding with_pk
    pk-each none sk_b64 n = refused err_arg n (inl refl)
    pk-each (some pk) sk_b64 n = elim (Bool-cases (length pk == 32)) [
      | inl right ↦ rw (right, with_pk) (sk-each pk (record_b64_decode sk_b64 64) n)
      | inr other ↦ rw (other, with_pk) (refused err_arg n (inl refl))
    ]

    pub provision-each :
        (pk sk : Bytes)
        → storage_writen ks.store.flash ≡ false
        → P (keystore_provision c hw (some pk) (some sk) (some id) ks)
    unfolding keystore_provision at_stage
    provision-each pk sk unset = elim (Bool-cases (record_device_id_valid (some id))) [
      | inr invalid ↦
          rw (unset, invalid, keystore_provision) (refused err_arg ks.store.scratch (inl refl))
      | inl valid ↦
          rw (unset, valid, keystore_provision)
            (pk-each (record_b64_decode (some pk) 32) (some sk) (diag_stage Diag.fields_ok))
    ]
