-- ===== src/Keystore/Provision.antt =====
-- What `keystore_provision` has done when it reports success.
use roman_firmware.Prelude.{
  ◌+◌, ◌≡◌, ◌≢◌, refl, sym, ap, ◌∙◌, ◌⊎◌, inl, inr, true, false, Option, none, some, [], ◌∷◌, ◌++◌,
  arith, Bytes, length, length-append, length-drop, take-all, bytes_eq→eq, take, drop, Bool-cases,
  ◌==◌, ==_iff,
}
use roman_firmware.Base64.{is_empty, b64_decode, record_b64_decode}
use roman_firmware.Record.{
  Fields, record_encode, device_id_valid, record_device_id_valid, record_max,
}
use roman_firmware.Record.RoundTrip.{
  encode_accepts, length-payload, record_encode_layout, decode-encode_record,
}
use roman_firmware.Storage.{Crypto, Hardware, storage_writen}
use roman_firmware.Storage.Assumptions.{CryptoLaws, HardwareLaws}
use roman_firmware.Storage.Write.{read-write}
use roman_firmware.Diag
use roman_firmware.Keystore.{
  Keystore, ok, at_stage, store_record, check_pair, with_sk, with_pk, keystore_provision,
}
use roman_firmware.Keystore.Coherence.{stored_fields}

is_empty-false : (xs : Bytes) → is_empty xs ≡ false → xs ≢ []
unfolding is_empty
is_empty-false [] h e = cc
is_empty-false (x ∷ xs) h e = cc

-- The board holds this record: the flag is set, the fields read back, nothing stale is cached.
pub record Holds (c : Crypto) (ks : Keystore) (f : Fields) : Type 0 where
  pub flag : storage_writen ks.store.flash ≡ true
  pub fields : stored_fields c ks.store.flash ≡ some f
  pub fresh : ks.cache_valid ≡ false
  pub size : length ks.store.flash ≡ 4096

module _ (c : Crypto) (hw : Hardware) (laws : CryptoLaws c) (hl : HardwareLaws hw) (pk id : Bytes)
    (hp : length pk ≡ 32) where
  store_record_ok :
      (sk : Bytes) (ks : Keystore)
      → length sk ≡ 64
      → length ks.store.flash ≡ 4096
      → (store_record c hw pk sk (some id) ks).0 ≡ ok
      → Holds c
          (store_record c hw pk sk (some id) ks).1
          (record { pk = pk; sk = sk; device_id = id })
  unfolding store_record
  store_record_ok sk ks hs size h =
      let bytes = record_encode record_max pk sk (some id) in
      let st = (at_stage Diag.pair_ok ks).store in
      elim (Bool-cases (is_empty bytes)) [
        | inl nothing ↦ cc (rw (nothing, store_record) at h)
        | inr something ↦
            let accepted = is_empty-false bytes something in
            let (valid, room) = encode_accepts record_max pk sk id accepted in
            let layout = record_encode_layout record_max pk sk id hp hs valid room in
            let long : length bytes ≡ 98 + length id =
              ap length layout ∙ length-payload pk sk id hp hs in
            elim (read-write c hw bytes st laws hl (omega (arith, long)) (omega (arith, long))
              size) [
                | inl (written, flag, reads, size') ↦
                    rw (something, written, store_record)
                      (record {
                        flag = flag;
                        fields =
                            unfold stored_fields in
                            rw (reads 232 (omega (arith, long))) (
                              decode-encode_record record_max 33 pk sk id hp hs accepted
                                (omega arith));
                        fresh = refl;
                        size = size';
                      })
                | inr (failed, _) ↦ cc (rw (something, failed, store_record) at h)
              ]
      ]

  check_pair_ok :
      (sk : Bytes) (ks : Keystore)
      → length sk ≡ 64
      → length ks.store.flash ≡ 4096
      → (check_pair c hw pk sk (some id) ks).0 ≡ ok
      → (drop 32 sk ≡ pk)
        × Holds c
            (check_pair c hw pk sk (some id) ks).1
            (record { pk = pk; sk = sk; device_id = id })
  unfolding check_pair
  check_pair_ok sk ks hs size h = elim (Bool-cases (c.crypto_verify_32 (drop 32 sk) pk)) [
    | inr differs ↦ cc (rw (differs, check_pair) at h)
    | inl same ↦
        let compared = sym (laws.verify_compares (drop 32 sk) pk) ∙ same in
        let halves = bytes_eq→eq (take 32 (drop 32 sk)) (take 32 pk) compared in
        (
          sym (take-all 32 (drop 32 sk) (omega (arith, length-drop 32 sk)))
              ∙ halves
              ∙ take-all 32 pk hp,
          rw (same, check_pair)
              (store_record_ok sk (at_stage Diag.pair_check ks) hs size
                (rw (same, check_pair) at h)),
        )
  ]

-- What was sent as `sk` stands for the 64 byte key `sk`: the key itself, or its 32 byte seed.
abbrev pub Secret : Bytes → Bytes → Bytes → Type 0
Secret text pk sk =
    (b64_decode text 64 ≡ some sk)
    ⊎ ((seed : Bytes) × (b64_decode text 64 ≡ some seed) × (length seed ≡ 32) × (sk ≡ seed ++ pk))

-- The board holds the record that the three texts stand for.
abbrev pub Installed : Crypto → Bytes → Bytes → Bytes → Keystore → Type 0
Installed c pk_b64 sk_b64 id ks =
    (pk : Bytes) × (sk : Bytes) × (b64_decode pk_b64 32 ≡ some pk)
    × (length pk ≡ 32)
    × Secret sk_b64 pk sk
    × (drop 32 sk ≡ pk)
    × Holds c ks (record { pk = pk; sk = sk; device_id = id })

module _ (c : Crypto) (hw : Hardware) (laws : CryptoLaws c) (hl : HardwareLaws hw)
    (p s id : Bytes) where
  with_sk_ok :
      (pk : Bytes) (o : Option Bytes) (ks : Keystore)
      → b64_decode s 64 ≡ o
      → b64_decode p 32 ≡ some pk
      → length pk ≡ 32
      → length ks.store.flash ≡ 4096
      → (with_sk c hw pk o (some id) ks).0 ≡ ok
      → Installed c p s id (with_sk c hw pk o (some id) ks).1
  unfolding with_sk
  with_sk_ok pk none ks e ep hp size h = cc
  with_sk_ok pk (some sk) ks e ep hp size h = elim (Bool-cases (length sk == 32)) [
    | inl seed ↦
        let len : length sk ≡ 32 = (==_iff _ _).0 seed in
        let full = sk ++ pk in
        let (half, holds) =
          check_pair_ok c hw laws hl pk id hp full ks (omega (arith, length-append sk pk)) size
            (rw (seed, with_sk) at h) in
        rw (seed, with_sk) (pk, full, ep, hp, inr (sk, e, len, refl), half, holds)
    | inr not_seed ↦ elim (Bool-cases (length sk == 64)) [
      | inl whole ↦
          let len : length sk ≡ 64 = (==_iff _ _).0 whole in
          let (half, holds) =
            check_pair_ok c hw laws hl pk id hp sk ks len size
              (rw (not_seed, whole, with_sk) at h) in
          rw (not_seed, whole, with_sk) (pk, sk, ep, hp, inl e, half, holds)
      | inr other ↦ cc (rw (not_seed, other, with_sk) at h)
    ]
  ]

  with_pk_ok :
      (o : Option Bytes) (ks : Keystore)
      → b64_decode p 32 ≡ o
      → length ks.store.flash ≡ 4096
      → (with_pk c hw o (some s) (some id) ks).0 ≡ ok
      → Installed c p s id (with_pk c hw o (some s) (some id) ks).1
  unfolding with_pk
  with_pk_ok none ks e size h = cc
  with_pk_ok (some pk) ks e size h = elim (Bool-cases (length pk == 32)) [
    | inr other ↦ cc (rw (other, with_pk) at h)
    | inl right ↦
        unfold record_b64_decode in
        rw (right, with_pk)
          (with_sk_ok pk (b64_decode s 64) ks refl e ((==_iff _ _).0 right) size
            (rw (right, with_pk) at h))
  ]

-- One shot: `keystore_provision` succeeds only on a board whose flag is not set, for a valid id and
-- keys in base64 of the right sizes, the public key in the second half of the secret one; then the
-- flag is set, flash reads back exactly those keys and that id, and the cache is dropped.
pub provision_sound :
    (c : Crypto) (hw : Hardware) (p s id : Bytes) (ks : Keystore)
    → CryptoLaws c
    → HardwareLaws hw
    → length ks.store.flash ≡ 4096
    → (keystore_provision c hw (some p) (some s) (some id) ks).0 ≡ ok
    → (storage_writen ks.store.flash ≡ false)
      × (device_id_valid id ≡ true)
      × Installed c p s id (keystore_provision c hw (some p) (some s) (some id) ks).1
unfolding keystore_provision record_device_id_valid
provision_sound c hw p s id ks laws hl size h = elim (Bool-cases (storage_writen ks.store.flash)) [
  | inl set ↦ cc (rw (set, keystore_provision) at h)
  | inr unset ↦ elim (Bool-cases (device_id_valid id)) [
    | inr invalid ↦ cc (rw (unset, invalid, keystore_provision) at h)
    | inl valid ↦ (
      unset,
      valid,
      unfold record_b64_decode in
          rw (unset, valid, keystore_provision)
            (with_pk_ok c hw laws hl p s id (b64_decode p 32) (at_stage Diag.fields_ok ks) refl size
              (rw (unset, valid, keystore_provision) at h)),
    )
  ]
]
