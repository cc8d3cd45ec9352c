-- ===== src/Keystore.antt =====
-- The provisioning policy and its RAM cache, keystore.c and keystore.h.
--
-- The state is the store of storage.c and the four static variables. A `const char *` argument that
-- may be NULL is an Option. The static buffers of `keystore_provision` and `keystore_clear` are
-- written before they are read in each call, so they are local here.
pub mod Provision
pub mod Accepts
pub mod Coherence
pub mod Clear
pub mod Invariant
pub mod Cases
pub mod Contract
pub mod Contents
pub mod Refinement
pub mod Lasting
pub mod ClearCases
pub mod Updates
pub mod Tests
pub mod ContractTests
use roman_firmware.Prelude.{
  ℕ, ◌+◌, Bool, true, false, not, ◌&&◌, ◌||◌, Option, none, some, is_some, [], ◌∷◌, ◌++◌, Bytes,
  length, take, drop, replicate, ltb, ◌==◌, if◌then◌else◌,
}
use roman_firmware.Base64.{is_empty, record_b64_decode}
use roman_firmware.Record.{Fields, record_device_id_valid, record_encode, record_decode, record_max}
use roman_firmware.Diag
use roman_firmware.Diag.{Stage, diag_stage}
use roman_firmware.Storage.{
  Crypto, Hardware, Store, max_payload, storage_writen, storage_read, storage_write, storage_clear,
}

pub data Status : Type 0 where
  ok err_arg err_mismatch err_already err_flash : Status

pub data State : Type 0 where
  empty provisioned corrupt : State

pub data ClearStatus : Type 0 where
  clear_ok clear_empty clear_err_arg clear_err_denied clear_err_flash : ClearStatus

pub record Keystore : Type 0 where
  pub store : Store
  pub cached_pk : Bytes
  pub cached_sk : Bytes
  pub cached_id : Bytes
  pub cache_valid : Bool

-- sizeof(cached_id)
abbrev pub id_cap : ℕ
id_cap = 33

-- `diag_stage` on the board's scratch register
unfoldable pub at_stage : Stage → Keystore → Keystore
unfolding diag_stage
at_stage s ks = record ks { store = record (ks.store) { scratch = diag_stage s } }

unfoldable pub keystore_invalidate : Keystore → Keystore
keystore_invalidate ks = record ks { cache_valid = false; cached_sk = replicate 64 0 }

unfoldable pub keystore_writen : Keystore → Bool
keystore_writen ks = storage_writen ks.store.flash

unfoldable pub fill_cache : Option Fields → Keystore → Bool × Keystore
fill_cache none ks = (false, ks)
fill_cache (some f) ks = (
  true,
  record ks { cached_pk = f.pk; cached_sk = f.sk; cached_id = f.device_id; cache_valid = true },
)

module _ (c : Crypto) where
  unfoldable pub keystore_load : Keystore → Bool × Keystore
  unfolding fill_cache
  keystore_load ks =
      if ks.cache_valid
      then (true, ks)
      else let payload = storage_read c ks.store.flash max_payload in
        if is_empty payload then (false, ks) else fill_cache (record_decode payload id_cap) ks

  unfoldable pub keystore_state : Keystore → State × Keystore
  unfolding keystore_load
  keystore_state ks =
      if not (storage_writen ks.store.flash)
      then (empty, ks)
      else let (loaded, ks') = keystore_load ks in (if loaded then provisioned else corrupt, ks')

  unfoldable pub keystore_signing_key : Keystore → Option Bytes × Keystore
  unfolding keystore_load
  keystore_signing_key ks =
      let (loaded, ks') = keystore_load ks in (if loaded then some ks'.cached_sk else none, ks')

  unfoldable pub keystore_device_id : ℕ → Keystore → Option Bytes × Keystore
  unfolding keystore_load
  keystore_device_id cap ks =
      let (loaded, ks') = keystore_load ks in
      (
        (if not loaded
            then none
            else if ltb cap (length ks'.cached_id + 1)
            then none
            else some ks'.cached_id),
        ks',
      )

  unfoldable pub keystore_public_key : Keystore → Option Bytes × Keystore
  unfolding keystore_load
  keystore_public_key ks =
      let (loaded, ks') = keystore_load ks in (if loaded then some ks'.cached_pk else none, ks')

  module _ (hw : Hardware) where
    -- The end of `keystore_provision`: encode, write, drop the cache.
    unfoldable pub store_record : Bytes → Bytes → Option Bytes → Keystore → Status × Keystore
    unfolding at_stage keystore_invalidate
    store_record pk sk device_id ks0 =
        let ks = at_stage Diag.pair_ok ks0 in
        let payload = record_encode record_max pk sk device_id in
        if is_empty payload
        then (err_arg, ks)
        else let (written, st) = storage_write c hw payload ks.store in
          if not written
          then (err_flash, record ks { store = st })
          else (ok, keystore_invalidate (at_stage Diag.done (record ks { store = st })))

    -- The structural check: the public half of `sk` is the `pk` that was sent.
    unfoldable pub check_pair : Bytes → Bytes → Option Bytes → Keystore → Status × Keystore
    unfolding at_stage store_record
    check_pair pk sk device_id ks0 =
        let ks = at_stage Diag.pair_check ks0 in
        if not (c.crypto_verify_32 (drop 32 sk) pk)
        then (err_mismatch, ks)
        else store_record pk sk device_id ks

    unfoldable pub with_sk : Bytes → Option Bytes → Option Bytes → Keystore → Status × Keystore
    unfolding check_pair
    with_sk pk none device_id ks = (err_arg, ks)
    with_sk pk (some sk) device_id ks =
        if length sk == 32
        then check_pair pk (sk ++ pk) device_id ks
        else if not (length sk == 64)
        then (err_arg, ks)
        else check_pair pk sk device_id ks

    unfoldable pub with_pk :
        Option Bytes → Option Bytes → Option Bytes → Keystore → Status × Keystore
    unfolding with_sk
    with_pk none sk_b64 device_id ks = (err_arg, ks)
    with_pk (some pk) sk_b64 device_id ks =
        if not (length pk == 32)
        then (err_arg, ks)
        else with_sk pk (record_b64_decode sk_b64 64) device_id ks

    unfoldable pub keystore_provision :
        Option Bytes → Option Bytes → Option Bytes → Keystore → Status × Keystore
    unfolding with_pk at_stage
    keystore_provision pk_b64 sk_b64 device_id ks =
        if storage_writen ks.store.flash
        then (err_already, ks)
        else if not (is_some pk_b64)
            || not (is_some sk_b64)
            || not (record_device_id_valid device_id)
        then (err_arg, ks)
        else with_pk (record_b64_decode pk_b64 32) sk_b64 device_id (at_stage Diag.fields_ok ks)

    -- The comparison of `keystore_clear`, and the erase behind it.
    unfoldable pub clear_checked : Bytes → Keystore → ClearStatus × Keystore
    unfolding keystore_invalidate
    clear_checked given ks =
        if not (c.crypto_verify_32 given ks.cached_sk)
        then (clear_err_denied, ks)
        else if length given == 64
            && not (c.crypto_verify_32 (drop 32 given) (drop 32 ks.cached_sk))
        then (clear_err_denied, ks)
        else let (erased, st) = storage_clear hw ks.store in
          if not erased
          then (clear_err_flash, record ks { store = st })
          else (clear_ok, keystore_invalidate (record ks { store = st }))

    unfoldable pub clear_given : Option Bytes → Keystore → ClearStatus × Keystore
    unfolding clear_checked
    clear_given none ks = (clear_err_arg, ks)
    clear_given (some given) ks =
        if not (length given == 32) && not (length given == 64)
        then (clear_err_arg, ks)
        else clear_checked given ks

    unfoldable pub keystore_clear : Option Bytes → Keystore → ClearStatus × Keystore
    unfolding clear_given at_stage keystore_load
    keystore_clear ed25519_sk_b64 ks =
        if not (storage_writen ks.store.flash)
        then (clear_empty, ks)
        else if not (is_some ed25519_sk_b64)
        then (clear_err_arg, ks)
        else let (loaded, ks') = keystore_load (at_stage Diag.clear ks) in
          if not loaded
          then (clear_err_denied, ks')
          else clear_given (record_b64_decode ed25519_sk_b64 64) ks'
