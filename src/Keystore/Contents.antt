-- ===== src/Keystore/Contents.antt =====
-- What the keystore holds, and that its questions are answered from that.
use roman_firmware.Prelude.{
  ℕ, ◌≡◌, refl, sym, ap, ◌⊎◌, inl, inr, Bool, true, false, not, Option, none, some, Bytes,
  Bool-cases, Option-cases, subst, if◌then◌else◌,
}
use roman_firmware.Record.{Fields}
use roman_firmware.Storage.{Crypto, Store, storage_writen}
use roman_firmware.Storage.Write.{IsErased}
use roman_firmware.Keystore.{
  Keystore, keystore_writen, keystore_load, keystore_state, keystore_signing_key,
  keystore_device_id, keystore_public_key,
}
use roman_firmware.Keystore.Coherence.{stored_fields, cached, store-load, load_exact}
use roman_firmware.Keystore.Invariant.{IsSound}
use roman_firmware.Keystore.Contract
use roman_firmware.Keystore.Contract.{
  Contents, nothing, unreadable, holding, Operation, Answer, Allowed, Runs, halt, then_, call,
  calls, flag_of, state_of, field_of, id_in,
}

-- The contents that a sector stands for.
abbrev readable : Option Fields → Contents
readable none = unreadable
readable (some f) = holding f

unfoldable pub contents : Crypto → Bytes → Contents
contents c flash = if storage_writen flash then readable (stored_fields c flash) else nothing

pub unset_contents :
    (c : Crypto) (flash : Bytes) → storage_writen flash ≡ false → contents c flash ≡ nothing
unfolding contents
unset_contents c flash unset = rw unset refl

pub erased_contents : (c : Crypto) (flash : Bytes) → IsErased flash → contents c flash ≡ nothing
unfolding storage_writen
erased_contents c flash blank = unset_contents c flash (ap storage_writen blank)

pub contents-holding :
    (c : Crypto) (flash : Bytes) (f : Fields)
    → storage_writen flash ≡ true
    → stored_fields c flash ≡ some f
    → contents c flash ≡ holding f
unfolding contents
contents-holding c flash f set fields = rw (set, fields) refl

pub flag_contents : (c : Crypto) (flash : Bytes) → flag_of (contents c flash) ≡ storage_writen flash
unfolding contents
flag_contents c flash = elim (Bool-cases (storage_writen flash)) [
  | inr unset ↦ rw unset refl
  | inl set ↦ elim (Option-cases (stored_fields c flash)) [
    | inl damaged ↦ rw (set, damaged) refl
    | inr (f, fields) ↦ rw (set, fields) refl
  ]
]

if-not : (b : Bool) (x y : Option Bytes) → (if not b then x else y) ≡ (if b then y else x)
if-not true x y = refl
if-not false x y = refl

module _ (c : Crypto) (ks : Keystore) (s : IsSound c ks) where
  -- A load succeeds where the contents can be read, and caches them.
  pub load_contents :
      ((keystore_load c ks).0 ≡ true)
        × (contents c ks.store.flash ≡ holding (cached (keystore_load c ks).1))
      ⊎ ((keystore_load c ks).0 ≡ false)
        × ((contents c ks.store.flash ≡ nothing) ⊎ (contents c ks.store.flash ≡ unreadable))
  unfolding contents
  load_contents = elim (load_exact c ks (record { agrees = s.agrees })) [
    | inl (loaded, fields) ↦
        inl (loaded, contents-holding c ks.store.flash _ (s.flagged _ fields) fields)
    | inr (failed, none_) ↦ elim (Bool-cases (storage_writen ks.store.flash)) [
      | inl set ↦ inr (failed, inr (rw (set, none_) refl))
      | inr unset ↦ inr (failed, inl (rw unset refl))
    ]
  ]

  pub same_contents : contents c (keystore_load c ks).1.store.flash ≡ contents c ks.store.flash
  same_contents = ap (λ (st : Store). contents c st.flash) (store-load c ks)

  -- A field that a load hands out is the one of the contents.
  field_lem :
      (get : Fields → Option Bytes)
      → (let (loaded, ks') = keystore_load c ks in if loaded then get (cached ks') else none)
        ≡ field_of get (contents c ks.store.flash)
  field_lem get = elim load_contents [
    | inl (loaded, holds) ↦ rw (loaded, holds) refl
    | inr (failed, inl none_) ↦ rw (failed, none_) refl
    | inr (failed, inr corrupt_) ↦ rw (failed, corrupt_) refl
  ]

  -- A question that is answered after a load.
  field-Allowed :
      (op : Operation) (get : Fields → Option Bytes)
      → ((k : Contents) → Allowed k op (Contract.found (field_of get k)) k)
      → (let (loaded, ks') = keystore_load c ks in
          Allowed
            (contents c ks.store.flash)
            op
            (Contract.found (if loaded then get (cached ks') else none))
            (contents c ks'.store.flash))
  field-Allowed op get tells = rw (field_lem get, same_contents) (tells (contents c ks.store.flash))

  pub signing_key-Allowed :
      (let (key, ks') = keystore_signing_key c ks in
        Allowed
          (contents c ks.store.flash)
          Contract.signing_key
          (Contract.found key)
          (contents c ks'.store.flash))
  unfolding keystore_signing_key
  signing_key-Allowed =
      field-Allowed Contract.signing_key (λ f. some f.sk) Contract.tells_signing_key

  pub public_key-Allowed :
      (let (key, ks') = keystore_public_key c ks in
        Allowed
          (contents c ks.store.flash)
          Contract.public_key
          (Contract.found key)
          (contents c ks'.store.flash))
  unfolding keystore_public_key
  public_key-Allowed = field-Allowed Contract.public_key (λ f. some f.pk) Contract.tells_public_key

  pub device_id-Allowed :
      (cap : ℕ)
      → (let (id, ks') = keystore_device_id c cap ks in
          Allowed
            (contents c ks.store.flash)
            (Contract.device_id cap)
            (Contract.found id)
            (contents c ks'.store.flash))
  unfolding keystore_device_id
  device_id-Allowed cap =
      let (loaded, ks') = keystore_load c ks in
      subst
        (λ o.
          Allowed (contents c ks.store.flash) (Contract.device_id cap) (Contract.found o)
            (contents c ks'.store.flash))
        (sym (if-not loaded none (id_in cap (cached ks'))))
        (field-Allowed (Contract.device_id cap) (id_in cap) (Contract.tells_device_id cap))

  pub writen-Allowed :
      Allowed
        (contents c ks.store.flash)
        Contract.writen
        (Contract.done (keystore_writen ks))
        (contents c ks.store.flash)
  unfolding keystore_writen
  writen-Allowed =
      rw (sym (flag_contents c ks.store.flash)) (Contract.tells_flag (contents c ks.store.flash))

  pub state-Allowed :
      (let (st, ks') = keystore_state c ks in
        Allowed
          (contents c ks.store.flash)
          Contract.state
          (Contract.state_is st)
          (contents c ks'.store.flash))
  unfolding keystore_state
  state-Allowed = elim (Bool-cases (storage_writen ks.store.flash)) [
    | inr unset ↦
        rw (unset, keystore_state, unset_contents c ks.store.flash unset)
          (Contract.tells_state nothing)
    | inl set ↦ elim load_contents [
      | inl (loaded, holds) ↦
          rw (set, loaded, keystore_state, same_contents, holds)
            (Contract.tells_state (holding (cached (keystore_load c ks).1)))
      | inr (failed, inr damaged) ↦
          rw (set, failed, keystore_state, same_contents, damaged) (Contract.tells_state unreadable)
      | inr (failed, inl none_) ↦ cc (flag_contents c ks.store.flash)
    ]
  ]
