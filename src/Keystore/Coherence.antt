-- ===== src/Keystore/Coherence.antt =====
-- The RAM cache of keystore.c agrees with the record in flash.
use roman_firmware.Prelude.{
  ℕ, ◌≡◌, refl, ap, ◌∙◌, ◌⊎◌, inl, inr, Bool, true, false, Option, none, some, [], ◌∷◌, Bytes,
  Bool-cases, if◌then◌else◌,
}
use roman_firmware.Base64.{is_empty}
use roman_firmware.Record.{Fields, record_decode}
use roman_firmware.Storage.{Crypto, storage_read}
use roman_firmware.Keystore.{Keystore, fill_cache, keystore_load}

-- The fields of the record in flash, if it can be read.
unfoldable pub stored_fields : Crypto → Bytes → Option Fields
stored_fields c flash = record_decode (storage_read c flash 232) 33

abbrev pub cached : Keystore → Fields
cached ks = record { pk = ks.cached_pk; sk = ks.cached_sk; device_id = ks.cached_id }

-- A valid cache holds what the record in flash says.
pub record IsCoherent (c : Crypto) (ks : Keystore) : Type 0 where
  pub agrees : ks.cache_valid ≡ true → stored_fields c ks.store.flash ≡ some (cached ks)

pub decode-nil : (cap : ℕ) → record_decode [] cap ≡ none
unfolding record_decode
decode-nil cap = refl

module _ (c : Crypto) (ks : Keystore) where
  -- `keystore_load` is the read of the flash record where the cache is not valid.
  fill_lem :
      (payload : Bytes) (o : Option Fields)
      → o ≡ record_decode payload 33
      → (if is_empty payload then (false, ks) else fill_cache o ks) ≡ fill_cache o ks
  unfolding is_empty fill_cache
  fill_lem [] o e = rw (e, decode-nil 33) refl
  fill_lem (x ∷ payload) o e = refl

  abbrev load_if : Bool → Bool × Keystore
  load_if valid =
      let payload = storage_read c ks.store.flash 232 in
      if valid
      then (true, ks)
      else if is_empty payload
      then (false, ks)
      else fill_cache (record_decode payload 33) ks

  pub load_fresh :
      ks.cache_valid ≡ false → keystore_load c ks ≡ fill_cache (stored_fields c ks.store.flash) ks
  unfolding keystore_load stored_fields
  load_fresh stale = ap load_if stale ∙ fill_lem (storage_read c ks.store.flash 232) _ refl

  pub load_cached : ks.cache_valid ≡ true → keystore_load c ks ≡ (true, ks)
  unfolding keystore_load
  load_cached valid = ap load_if valid

  -- Whatever it finds, a load leaves flash, generator and marker alone.
  pub store-load : (keystore_load c ks).1.store ≡ ks.store
  store-load = elim (Bool-cases ks.cache_valid) [
    | inl valid ↦ rw (load_cached valid)
    | inr stale ↦ rw (load_fresh stale) (store-fill (stored_fields c ks.store.flash))
  ]
    where
      store-fill : (o : Option Fields) → (fill_cache o ks).1.store ≡ ks.store
      store-fill none = unfold fill_cache in refl
      store-fill (some f) = unfold fill_cache in refl

  -- A load succeeds exactly where flash holds a readable record, and hands out that record.
  pub load_exact :
      IsCoherent c ks
      → (((keystore_load c ks).0 ≡ true)
          × (stored_fields c ks.store.flash ≡ some (cached (keystore_load c ks).1)))
        ⊎ (((keystore_load c ks).0 ≡ false) × (stored_fields c ks.store.flash ≡ none))
  load_exact h = elim (Bool-cases ks.cache_valid) [
    | inl valid ↦ rw (load_cached valid) (inl (refl, h.agrees valid))
    | inr stale ↦ rw (load_fresh stale) (exact-fill (stored_fields c ks.store.flash))
  ]
    where
      exact-fill :
          (o : Option Fields)
          → (((fill_cache o ks).0 ≡ true) × (o ≡ some (cached (fill_cache o ks).1)))
            ⊎ (((fill_cache o ks).0 ≡ false) × (o ≡ none))
      exact-fill none = unfold fill_cache in inr (refl, refl)
      exact-fill (some f) = unfold fill_cache in inl (refl, refl)

  -- A load that does not succeed leaves the cache as it is, and one that does fills it from flash.
  pub load-IsCoherent : IsCoherent c ks → IsCoherent c (keystore_load c ks).1
  load-IsCoherent h = elim (Bool-cases ks.cache_valid) [
    | inl valid ↦ rw (load_cached valid) h
    | inr stale ↦ rw (load_fresh stale) (fill-IsCoherent (stored_fields c ks.store.flash) refl)
  ]
    where
      fill-IsCoherent :
          (o : Option Fields)
          → stored_fields c ks.store.flash ≡ o
          → IsCoherent c (fill_cache o ks).1
      fill-IsCoherent none e = unfold fill_cache in h
      fill-IsCoherent (some f) e = unfold fill_cache in record { agrees = λ _. e }
