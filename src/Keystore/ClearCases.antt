-- ===== src/Keystore/ClearCases.antt =====
-- The ways in which `keystore_clear` ends on a board with the flag set.
use roman_firmware.Prelude.{
  ◌≡◌, ◌≢◌, sym, ap, ◌∙◌, ◌⊎◌, inl, inr, true, false, not, ◌&&◌, none, some, arith, Bytes, length,
  take, drop, bytes_eq, bytes_eq→eq, bytes_eq_refl, ◌==◌, Bool-cases, Option-cases,
}
use roman_firmware.Base64.{b64_decode}
use roman_firmware.Storage.{Crypto, Hardware, Store, storage_clear}
use roman_firmware.Storage.Assumptions.{CryptoLaws, HardwareLaws}
use roman_firmware.Storage.Write.{IsErased, execute_cases}
use roman_firmware.Keystore.{
  Keystore, ClearStatus, clear_ok, clear_err_arg, clear_err_denied, clear_err_flash,
  keystore_invalidate, clear_checked, clear_given,
}
use roman_firmware.Keystore.Clear.{Presents}

-- A text that is no key: it does not decode, or not to 32 or 64 bytes.
abbrev pub IsMisfit : Bytes → Type 0
IsMisfit text =
    (b64_decode text 64 ≡ none)
    ⊎ ((given : Bytes) × (b64_decode text 64 ≡ some given)
        × (length given ≢ 32)
        × (length given ≢ 64))

-- A text that is a key, but not the one whose secret key is `sk`.
abbrev pub IsOther : Bytes → Bytes → Type 0
IsOther text sk = (given : Bytes) × (b64_decode text 64 ≡ some given) × ¬ Presents given sk

module _ (c : Crypto) (hw : Hardware) (laws : CryptoLaws c) (hl : HardwareLaws hw) where
  same_bytes : (x y : Bytes) → c.crypto_verify_32 x y ≡ true → take 32 x ≡ take 32 y
  same_bytes x y h = bytes_eq→eq (take 32 x) (take 32 y) (sym (laws.verify_compares x y) ∙ h)

  other_bytes : (x y : Bytes) → c.crypto_verify_32 x y ≡ false → take 32 x ≢ take 32 y
  other_bytes x y h same =
      cc
        (laws.verify_compares x y, ap (λ t. bytes_eq t (take 32 y)) same, bytes_eq_refl (take 32 y))

  module _ (P : ClearStatus × Keystore → Type 0) (text : Bytes) (ks : Keystore)
      (size : length ks.store.flash ≡ 4096) (misfit : IsMisfit text → P (clear_err_arg, ks))
      (other : IsOther text ks.cached_sk → P (clear_err_denied, ks))
      (failed : (st : Store)
        → st.flash ≡ ks.store.flash
        → P (clear_err_flash, record ks { store = st }))
      (done : (given : Bytes) (st : Store)
        → b64_decode text 64 ≡ some given
        → Presents given ks.cached_sk
        → IsErased st.flash
        → P (clear_ok, keystore_invalidate (record ks { store = st }))) where
    checked-each :
        (given : Bytes) → b64_decode text 64 ≡ some given → P (clear_checked c hw given ks)
    unfolding clear_checked storage_clear
    checked-each given decoded = elim (Bool-cases (c.crypto_verify_32 given ks.cached_sk)) [
      | inr wrong ↦
          rw (wrong, clear_checked)
            (other (given, decoded, λ shown. other_bytes given ks.cached_sk wrong shown.seed))
      | inl seed ↦
          elim (Bool-cases (
            length given == 64
            && not (c.crypto_verify_32 (drop 32 given) (drop 32 ks.cached_sk)))) [
              | inl wrong ↦
                  let unequal : c.crypto_verify_32 (drop 32 given) (drop 32 ks.cached_sk) ≡ false =
                    ground arith in
                  let whole : length given ≡ 64 = ground arith in
                  rw (seed, wrong, clear_checked)
                    (other (
                      given,
                      decoded,
                      λ shown.
                          other_bytes (drop 32 given) (drop 32 ks.cached_sk) unequal
                            (shown.half whole),
                    ))
              | inr right ↦
                  let shown : Presents given ks.cached_sk = record {
                    seed = same_bytes given ks.cached_sk seed;
                    half =
                        λ whole. same_bytes (drop 32 given) (drop 32 ks.cached_sk) (ground arith);
                  } in
                  elim (execute_cases c hw hl hw.flash_range_erase ks.store.flash) [
                    | inr (not_run, same) ↦
                        rw (seed, right, not_run, clear_checked)
                          (failed (storage_clear hw ks.store).1 same)
                    | inl (erased, blank) ↦
                        rw (seed, right, erased, clear_checked)
                          (done given (storage_clear hw ks.store).1 decoded shown
                            (blank ∙ hl.erases ks.store.flash size))
                  ]
            ]
    ]

    pub given-each : P (clear_given c hw (b64_decode text 64) ks)
    unfolding clear_given
    given-each = elim (Option-cases (b64_decode text 64)) [
      | inl nothing ↦ rw (nothing, clear_given) (misfit (inl nothing))
      | inr (given, decoded) ↦
          elim (Bool-cases (not (length given == 32) && not (length given == 64))) [
            | inl strange ↦
                rw (decoded, strange, clear_given)
                  (misfit (inr (given, decoded, (λ e. ground arith), (λ e. ground arith))))
            | inr fits ↦ rw (decoded, fits, clear_given) (checked-each given decoded)
          ]
    ]
