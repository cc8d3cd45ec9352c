-- ===== src/Keystore/Updates.antt =====
-- The operations of the keystore that change flash keep its invariant.
use roman_firmware.Prelude.{
  refl, ◌∙◌, inl, inr, not, ◌&&◌, Option, none, some, Bytes, length, drop, ◌==◌, if◌then◌else◌,
  Bool-cases,
}
use roman_firmware.Base64.{record_b64_decode}
use roman_firmware.Diag
use roman_firmware.Diag.{Stage}
use roman_firmware.Storage.{Crypto, Hardware, storage_writen, storage_clear}
use roman_firmware.Storage.Assumptions.{CryptoLaws, HardwareLaws}
use roman_firmware.Storage.Write.{execute_cases}
use roman_firmware.Keystore.{
  Keystore, at_stage, keystore_invalidate, keystore_load, keystore_provision, clear_checked,
  clear_given, keystore_clear,
}
use roman_firmware.Keystore.Cases.{provision-each}
use roman_firmware.Keystore.Invariant.{
  IsSound, blank-IsSound, unset_stale, kept-IsSound, stage-IsSound, load-IsSound,
}

module _ (c : Crypto) (hw : Hardware) (laws : CryptoLaws c) (hl : HardwareLaws hw) where
  pub provision-IsSound :
      (pk sk id : Bytes) (ks : Keystore)
      → IsSound c ks
      → IsSound c (keystore_provision c hw (some pk) (some sk) (some id) ks).1
  unfolding keystore_provision
  provision-IsSound pk sk id ks s = elim (Bool-cases (storage_writen ks.store.flash)) [
    | inl set ↦ rw (set, keystore_provision) s
    | inr unset ↦
        provision-each c hw laws hl (λ result. IsSound c result.1) id ks s.size
          (λ status n refusal. kept-IsSound c ks _ refl s)
          (λ st left. elim left [
            | inl same ↦ kept-IsSound c ks st same s
            | inr blank ↦
                blank-IsSound c (record ks { store = st }) (unset_stale c ks s unset) blank
          ])
          (λ st flag size.
            unfold at_stage keystore_invalidate in
            record { agrees = λ valid. cc; flagged = λ f e. flag; size = size })
          pk sk unset
  ]

  -- An erase, and the cache dropped with it.
  pub erase-IsSound :
      (ks : Keystore)
      → IsSound c ks
      → (let (erased, st) = storage_clear hw ks.store in
          let ks' = record ks { store = st } in
          IsSound c (if erased then keystore_invalidate ks' else ks'))
  unfolding storage_clear
  erase-IsSound ks s = elim (execute_cases c hw hl hw.flash_range_erase ks.store.flash) [
    | inl (erased, blank) ↦ rw erased (
        blank-IsSound c (keystore_invalidate (record ks { store = (storage_clear hw ks.store).1 }))
          (unfold keystore_invalidate in refl)
          (unfold keystore_invalidate in blank ∙ hl.erases ks.store.flash s.size))
    | inr (refused, same) ↦ rw refused (kept-IsSound c ks (storage_clear hw ks.store).1 same s)
  ]

  checked-IsSound :
      (given : Bytes) (ks : Keystore) → IsSound c ks → IsSound c (clear_checked c hw given ks).1
  unfolding clear_checked
  checked-IsSound given ks s = elim (Bool-cases (c.crypto_verify_32 given ks.cached_sk)) [
    | inr wrong ↦ rw (wrong, clear_checked) s
    | inl seed ↦
        elim (Bool-cases
          (length given == 64 && not (c.crypto_verify_32 (drop 32 given) (drop 32 ks.cached_sk)))) [
            | inl wrong ↦ rw (seed, wrong, clear_checked) s
            | inr right ↦ elim (Bool-cases (storage_clear hw ks.store).0) [
              | inl erased ↦
                  rw (seed, right, erased, clear_checked) (rw erased at (erase-IsSound ks s))
              | inr refused ↦
                  rw (seed, right, refused, clear_checked) (rw refused at (erase-IsSound ks s))
            ]
          ]
  ]

  given-IsSound :
      (given : Option Bytes) (ks : Keystore)
      → IsSound c ks
      → IsSound c (clear_given c hw given ks).1
  unfolding clear_given
  given-IsSound none ks s = s
  given-IsSound (some given) ks s =
      elim (Bool-cases (not (length given == 32) && not (length given == 64))) [
        | inl misfit ↦ rw (misfit, clear_given) s
        | inr fits ↦ rw (fits, clear_given) (checked-IsSound given ks s)
      ]

  pub clear-IsSound :
      (text : Bytes) (ks : Keystore)
      → IsSound c ks
      → IsSound c (keystore_clear c hw (some text) ks).1
  unfolding keystore_clear
  clear-IsSound text ks s = elim (Bool-cases (storage_writen ks.store.flash)) [
    | inr unset ↦ rw (unset, keystore_clear) s
    | inl set ↦
        let marked = at_stage Diag.clear ks in
        let s' = load-IsSound c marked (stage-IsSound c Diag.clear ks s) in
        elim (Bool-cases (keystore_load c marked).0) [
          | inr failed ↦ rw (set, failed, keystore_clear) s'
          | inl found ↦
              rw (set, found, keystore_clear)
                (given-IsSound (record_b64_decode (some text) 64) (keystore_load c marked).1 s')
        ]
  ]
