-- ===== src/Keystore/Invariant.antt =====
-- The invariant of the keystore, kept by each of its operations.
use roman_firmware.Prelude.{
  ℕ, ◌≡◌, refl, sym, ap, ◌∙◌, inl, inr, true, false, Option, none, some, length, length-replicate,
  replicate, Bool-cases,
}
use roman_firmware.Record.{Fields}
use roman_firmware.Diag.{Stage}
use roman_firmware.Storage.{Crypto, Store, storage_writen, storage_read, storage_available}
use roman_firmware.Storage.Write.{IsErased}
use roman_firmware.Keystore.{
  Keystore, at_stage, keystore_invalidate, keystore_load, keystore_state, keystore_signing_key,
  keystore_device_id, keystore_public_key, fill_cache,
}
use roman_firmware.Keystore.Coherence.{stored_fields, cached, load_fresh, load_cached, decode-nil}

-- The cache agrees with flash, a record that can be read has its flag set, and the sector has its
-- size.
pub record IsSound (c : Crypto) (ks : Keystore) : Type 0 where
  pub agrees : ks.cache_valid ≡ true → stored_fields c ks.store.flash ≡ some (cached ks)
  pub flagged :
      (f : Fields) → stored_fields c ks.store.flash ≡ some f → storage_writen ks.store.flash ≡ true
  pub size : length ks.store.flash ≡ 4096

blank_fields : (c : Crypto) → stored_fields c (replicate 4096 0xFF) ≡ none
unfolding stored_fields storage_read storage_available
blank_fields c = decode-nil 33

module _ (c : Crypto) where
  -- A keystore on an erased sector, with nothing cached.
  pub blank-IsSound :
      (ks : Keystore) → ks.cache_valid ≡ false → IsErased ks.store.flash → IsSound c ks
  blank-IsSound ks stale blank = record {
    agrees = λ valid. cc;
    flagged = λ f e. cc (blank_fields c, ap (stored_fields c) blank);
    size = ap length blank ∙ length-replicate {A = ℕ} 4096 0xFF;
  }

  -- Without the flag nothing is cached.
  pub unset_stale :
      (ks : Keystore)
      → IsSound c ks
      → storage_writen ks.store.flash ≡ false
      → ks.cache_valid ≡ false
  unset_stale ks s unset = elim (Bool-cases ks.cache_valid) [
    | inr stale ↦ stale
    | inl valid ↦ cc (s.flagged (cached ks) (s.agrees valid))
  ]

  -- Another store with the same flash.
  pub kept-IsSound :
      (ks : Keystore) (st : Store)
      → st.flash ≡ ks.store.flash
      → IsSound c ks
      → IsSound c (record ks { store = st })
  kept-IsSound ks st e s = record {
    agrees = λ valid. ap (stored_fields c) e ∙ s.agrees valid;
    flagged = λ f found. ap storage_writen e ∙ s.flagged f (sym (ap (stored_fields c) e) ∙ found);
    size = ap length e ∙ s.size;
  }

  pub stage-IsSound : (g : Stage) (ks : Keystore) → IsSound c ks → IsSound c (at_stage g ks)
  unfolding at_stage
  stage-IsSound g ks s = record { agrees = s.agrees; flagged = s.flagged; size = s.size }

  pub invalidate-IsSound : (ks : Keystore) → IsSound c ks → IsSound c (keystore_invalidate ks)
  unfolding keystore_invalidate
  invalidate-IsSound ks s = record { agrees = λ valid. cc; flagged = s.flagged; size = s.size }

  fill-IsSound :
      (ks : Keystore) (o : Option Fields)
      → stored_fields c ks.store.flash ≡ o
      → IsSound c ks
      → IsSound c (fill_cache o ks).1
  unfolding fill_cache
  fill-IsSound ks none e s = s
  fill-IsSound ks (some f) e s = record { agrees = λ _. e; flagged = s.flagged; size = s.size }

  pub load-IsSound : (ks : Keystore) → IsSound c ks → IsSound c (keystore_load c ks).1
  load-IsSound ks s = elim (Bool-cases ks.cache_valid) [
    | inl valid ↦ rw (load_cached c ks valid) s
    | inr stale ↦
        rw (load_fresh c ks stale) (fill-IsSound ks (stored_fields c ks.store.flash) refl s)
  ]

  pub state-IsSound : (ks : Keystore) → IsSound c ks → IsSound c (keystore_state c ks).1
  unfolding keystore_state
  state-IsSound ks s = elim (Bool-cases (storage_writen ks.store.flash)) [
    | inl set ↦ rw (set, keystore_state) (load-IsSound ks s)
    | inr unset ↦ rw (unset, keystore_state) s
  ]

  pub signing_key-IsSound : (ks : Keystore) → IsSound c ks → IsSound c (keystore_signing_key c ks).1
  unfolding keystore_signing_key
  signing_key-IsSound ks s = load-IsSound ks s

  pub device_id-IsSound :
      (cap : ℕ) (ks : Keystore) → IsSound c ks → IsSound c (keystore_device_id c cap ks).1
  unfolding keystore_device_id
  device_id-IsSound cap ks s = load-IsSound ks s

  pub public_key-IsSound : (ks : Keystore) → IsSound c ks → IsSound c (keystore_public_key c ks).1
  unfolding keystore_public_key
  public_key-IsSound ks s = load-IsSound ks s
