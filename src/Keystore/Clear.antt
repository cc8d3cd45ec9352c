-- ===== src/Keystore/Clear.antt =====
-- Who may erase the record: `keystore_clear`.
use roman_firmware.Prelude.{
  ◌≡◌, refl, sym, ap, ◌∙◌, ◌⊎◌, inl, inr, true, not, ◌&&◌, Option, none, some, arith, Bytes, length,
  take, drop, bytes_eq→eq, Bool-cases, ◌==◌,
}
use roman_firmware.Base64.{b64_decode, record_b64_decode}
use roman_firmware.Record.{Fields}
use roman_firmware.Diag
use roman_firmware.Storage.{Crypto, Hardware, Store, storage_clear, storage_writen}
use roman_firmware.Storage.Assumptions.{CryptoLaws, HardwareLaws}
use roman_firmware.Storage.Write.{IsErased, execute_cases}
use roman_firmware.Keystore.{
  Keystore, clear_ok, at_stage, clear_checked, clear_given, keystore_load, keystore_clear,
}
use roman_firmware.Keystore.Coherence.{stored_fields, cached, IsCoherent, store-load, load_exact}

-- `given` presents the secret key `sk`: its seed, and its public half too if that was sent.
pub record Presents (given sk : Bytes) : Type 0 where
  pub seed : take 32 given ≡ take 32 sk
  pub half : length given ≡ 64 → take 32 (drop 32 given) ≡ take 32 (drop 32 sk)

module _ (c : Crypto) (hw : Hardware) (laws : CryptoLaws c) (hl : HardwareLaws hw) where
  compare_sound : (x y : Bytes) → c.crypto_verify_32 x y ≡ true → take 32 x ≡ take 32 y
  compare_sound x y h = bytes_eq→eq (take 32 x) (take 32 y) (sym (laws.verify_compares x y) ∙ h)

  -- The state of the flash after the comparison, and what was presented if it was erased.
  checked_cases :
      (given : Bytes) (ks : Keystore)
      → length ks.store.flash ≡ 4096
      → ((clear_checked c hw given ks).1.store.flash ≡ ks.store.flash)
        ⊎ ((clear_checked c hw given ks).0 ≡ clear_ok)
          × Presents given ks.cached_sk
          × IsErased (clear_checked c hw given ks).1.store.flash
  unfolding clear_checked storage_clear
  checked_cases given ks size = elim (Bool-cases (c.crypto_verify_32 given ks.cached_sk)) [
    | inr wrong ↦ rw (wrong, clear_checked) (inl refl)
    | inl seed ↦
        elim (Bool-cases
          (length given == 64 && not (c.crypto_verify_32 (drop 32 given) (drop 32 ks.cached_sk)))) [
            | inl wrong ↦ rw (seed, wrong, clear_checked) (inl refl)
            | inr right ↦ elim (execute_cases c hw hl hw.flash_range_erase ks.store.flash) [
              | inr (refused, same) ↦ rw (seed, right, refused, clear_checked) (inl same)
              | inl (erased, blank) ↦
                  rw (seed, right, erased, clear_checked)
                    (inr (
                      refl,
                      record {
                        seed = compare_sound given ks.cached_sk seed;
                        half = λ full.
                            compare_sound (drop 32 given) (drop 32 ks.cached_sk) (ground arith);
                      },
                      blank ∙ hl.erases ks.store.flash size,
                    ))
            ]
          ]
  ]

  given_cases :
      (o : Option Bytes) (ks : Keystore)
      → length ks.store.flash ≡ 4096
      → ((clear_given c hw o ks).1.store.flash ≡ ks.store.flash)
        ⊎ ((clear_given c hw o ks).0 ≡ clear_ok)
          × ((given : Bytes) × (o ≡ some given) × Presents given ks.cached_sk)
          × IsErased (clear_given c hw o ks).1.store.flash
  unfolding clear_given
  given_cases none ks size = inl refl
  given_cases (some given) ks size =
      elim (Bool-cases (not (length given == 32) && not (length given == 64))) [
        | inl misfit ↦ rw (misfit, clear_given) (inl refl)
        | inr fits ↦
            rw (fits, clear_given)
              (elim (checked_cases given ks size) [
                | inl same ↦ inl same
                | inr (done, shown, blank) ↦ inr (done, (given, refl, shown), blank)
              ])
      ]

-- `keystore_clear` erases the record only for a caller who presents the secret key that is stored
-- in flash; in every other case, whatever it answers, flash is as it was.
pub clear_authorised :
    (c : Crypto) (hw : Hardware) (text : Bytes) (ks : Keystore)
    → CryptoLaws c
    → HardwareLaws hw
    → IsCoherent c ks
    → length ks.store.flash ≡ 4096
    → (let (status, ks') = keystore_clear c hw (some text) ks in
        (ks'.store.flash ≡ ks.store.flash)
        ⊎ (status ≡ clear_ok)
          × ((f : Fields) × (given : Bytes) × (stored_fields c ks.store.flash ≡ some f)
              × (b64_decode text 64 ≡ some given)
              × Presents given f.sk)
          × IsErased ks'.store.flash)
unfolding keystore_clear record_b64_decode
clear_authorised c hw text ks laws hl coherent size =
    let marked = at_stage Diag.clear ks in
    let loaded = keystore_load c marked in
    let same_flash : loaded.1.store.flash ≡ ks.store.flash =
      ap (λ (st : Store). st.flash) (store-load c marked) in
    elim (Bool-cases (storage_writen ks.store.flash)) [
      | inr unset ↦ rw (unset, keystore_clear) (inl refl)
      | inl set ↦ elim (load_exact c marked (record { agrees = coherent.agrees })) [
        | inr (failed, _) ↦ rw (set, failed, keystore_clear) (inl same_flash)
        | inl (found, fields) ↦
            rw (set, found, keystore_clear)
              (elim (given_cases c hw laws hl (b64_decode text 64) loaded.1
                (ap length same_flash ∙ size)) [
                  | inl same ↦ inl (same ∙ same_flash)
                  | inr (done, (given, e, shown), blank) ↦
                      inr (done, (cached loaded.1, given, fields, e, shown), blank)
                ])
      ]
    ]
