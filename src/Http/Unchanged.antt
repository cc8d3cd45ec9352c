-- ===== src/Http/Unchanged.antt =====
-- The handlers that leave flash as it was.
use roman_firmware.Prelude.{
  ℕ, ◌≡◌, refl, ap, ◌∙◌, inl, inr, Option, none, some, Bytes, length, leb, Bool-cases,
}
use roman_firmware.Base64.{is_empty}
use roman_firmware.Diag
use roman_firmware.Storage.{Crypto, Store, storage_writen}
use roman_firmware.Keystore.{
  Keystore, at_stage, keystore_load, keystore_state, keystore_signing_key, keystore_device_id,
  keystore_public_key,
}
use roman_firmware.Keystore.Coherence.{store-load}
use roman_firmware.Http.Board.{Board, Env, stage}
use roman_firmware.Http.Response.{Reply}
use roman_firmware.Http.Sign.{
  Parsed, refused, message, parse_sign, sign_parsed, sign_with_id, sign_with_key, handle_sign_post,
}
use roman_firmware.Http.Debug.{finish_snapshot, handle_info, debug_snapshot}

abbrev pub flash_of : Board → Bytes
flash_of b = b.keystore.store.flash

-- The answer leaves flash as it was.
abbrev pub Same : Board → Reply × Board → Type 0
Same b answer = flash_of answer.1 ≡ flash_of b

module _ (c : Crypto) (ks : Keystore) where
  same_load : (keystore_load c ks).1.store.flash ≡ ks.store.flash
  same_load = ap (λ (st : Store). st.flash) (store-load c ks)

  same_device_id : (cap : ℕ) → (keystore_device_id c cap ks).1.store.flash ≡ ks.store.flash
  unfolding keystore_device_id
  same_device_id cap = same_load

  same_signing_key : (keystore_signing_key c ks).1.store.flash ≡ ks.store.flash
  unfolding keystore_signing_key
  same_signing_key = same_load

  same_public_key : (keystore_public_key c ks).1.store.flash ≡ ks.store.flash
  unfolding keystore_public_key
  same_public_key = same_load

  pub same_state : (keystore_state c ks).1.store.flash ≡ ks.store.flash
  unfolding keystore_state
  same_state = elim (Bool-cases (storage_writen ks.store.flash)) [
    | inl set ↦ rw (set, keystore_state) (same_load)
    | inr unset ↦ rw (unset, keystore_state) refl
  ]

module _ (e : Env) where
  Same-parsed : (sk id : Bytes) (p : Parsed) (b : Board) → Same b (sign_parsed e sk id p b)
  unfolding sign_parsed at_stage
  Same-parsed sk id (refused error) b = refl
  Same-parsed sk id (message text timestamp) b = refl

  Same-with_id :
      (body sk : Bytes) (id : Option Bytes) (b : Board) → Same b (sign_with_id e body sk id b)
  unfolding sign_with_id at_stage
  Same-with_id body sk none b = refl
  Same-with_id body sk (some id) b =
      Same-parsed sk id (parse_sign body id) (stage Diag.sign_parse b)

  Same-with_key :
      (body : Bytes) (sk : Option Bytes) (b : Board) → Same b (sign_with_key e body sk b)
  unfolding sign_with_key
  Same-with_key body none b = refl
  Same-with_key body (some sk) b =
      Same-with_id body sk (keystore_device_id e.crypto 33 b.keystore).0 _
      ∙ same_device_id e.crypto b.keystore 33

  pub Same-sign : (body : Bytes) (b : Board) → Same b (handle_sign_post e body b)
  unfolding handle_sign_post at_stage
  Same-sign body b = elim (Bool-cases (is_empty body)) [
    | inl nothing ↦ rw (nothing, handle_sign_post) refl
    | inr something ↦
        rw (something, handle_sign_post)
          (Same-with_key body _ _
            ∙ same_signing_key e.crypto
                (at_stage Diag.sign_key (at_stage Diag.sign_enter b.keystore)))
  ]

  pub Same-info : (b : Board) → Same b (handle_info e b)
  unfolding handle_info
  Same-info b =
      same_state e.crypto (keystore_device_id e.crypto 33 b.keystore).1
      ∙ same_device_id e.crypto b.keystore 33

  Same-finish : (text : Bytes) (b : Board) → Same b (finish_snapshot text b)
  unfolding finish_snapshot
  Same-finish text b = elim (Bool-cases (leb 1280 (length text))) [
    | inl long ↦ rw (long, finish_snapshot) refl
    | inr fits ↦ rw (fits, finish_snapshot) refl
  ]

  pub Same-snapshot : (conns : ℕ) (b : Board) → Same b (debug_snapshot e conns b)
  unfolding debug_snapshot
  Same-snapshot conns b =
      let (pk, ks) = keystore_public_key e.crypto b.keystore in
      Same-finish _ _ ∙ same_device_id e.crypto ks 33 ∙ same_public_key e.crypto b.keystore
