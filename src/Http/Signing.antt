-- ===== src/Http/Signing.antt =====
-- What POST /sign answers with.
use roman_firmware.Prelude.{
  ℕ, ◌+◌, ◌<◌, ◌≡◌, refl, sym, ap, ◌∙◌, inl, inr, Option, none, some, Bytes, codes, arith, length,
  leb, ltb, Option-cases, Bool-cases, leb-false→lt,
}
use roman_firmware.Base64.{is_empty}
use roman_firmware.Record.{Fields}
use roman_firmware.Diag
use roman_firmware.Led.{led_signal_signing}
use roman_firmware.Storage.{Crypto, Store}
use roman_firmware.Keystore.{
  Keystore, at_stage, keystore_load, keystore_signing_key, keystore_device_id,
}
use roman_firmware.Keystore.Coherence.{
  IsCoherent, stored_fields, store-load, load_exact, load-IsCoherent,
}
use roman_firmware.Http.Board.{Board, Env, stage, with_keystore}
use roman_firmware.Http.Json.{json_get_string}
use roman_firmware.Http.Sign.{
  Parsed, refused, message, field, joined, parse_sign, signature_body, sign_parsed, sign_with_id,
  sign_with_key, handle_sign_post,
}

field-eq-message :
    (o : Option Bytes) (error : Bytes) (next : Bytes → Parsed) (text timestamp : Bytes)
    → field o error next ≡ message text timestamp
    → (value : Bytes) × (o ≡ some value) × (next value ≡ message text timestamp)
field-eq-message none error next text timestamp e = cc
field-eq-message (some value) error next text timestamp e = (value, refl, e)

-- The three fields are in the body, and the text is theirs and the device id's.
abbrev pub Fielded : Bytes → Bytes → Bytes → Bytes → Type 0
Fielded body device_id text timestamp =
    (challenge : Bytes) × (context : Bytes) × (json_get_string body (codes "challenge") 256
      ≡ some challenge)
    × (json_get_string body (codes "context") 128 ≡ some context)
    × (json_get_string body (codes "timestamp") 128 ≡ some timestamp)
    × (text ≡ joined challenge context timestamp device_id)
    × (length text < 1024)

parse_sign_lem :
    (body device_id text timestamp : Bytes)
    → parse_sign body device_id ≡ message text timestamp
    → Fielded body device_id text timestamp
unfolding parse_sign
parse_sign_lem body device_id text timestamp e =
    let (challenge, e1, e) =
      field-eq-message (json_get_string body (codes "challenge") 256) _ _ text timestamp e in
    let (context, e2, e) =
      field-eq-message (json_get_string body (codes "context") 128) _ _ text timestamp e in
    let (stamp, e3, e) =
      field-eq-message (json_get_string body (codes "timestamp") 128) _ _ text timestamp e in
    let all = joined challenge context stamp device_id in
    elim (Bool-cases (leb 1024 (length all))) [
      | inl long ↦ cc (rw long at e)
      | inr fits ↦
          let e : message all stamp ≡ message text timestamp = rw fits at e in
          let same : all ≡ text = cc in
          let at_stamp : stamp ≡ timestamp = cc in
          let short = leb-false→lt 1024 (length all) fits in
          (
            challenge,
            context,
            e1,
            e2,
            e3 ∙ ap some at_stamp,
            sym same ∙ ap (λ t. joined challenge context t device_id) at_stamp,
            omega (arith, ap length same, short),
          )
    ]

-- What a reply to POST /sign shows of the record `f`.
abbrev pub Signed : Env → Bytes → Fields → Bytes → Type 0
Signed e body f shown =
    (text : Bytes) × (timestamp : Bytes) × Fielded body f.device_id text timestamp
    × (shown ≡ signature_body (e.crypto.crypto_sign text f.sk) timestamp f.device_id)

module _ (e : Env) (body : Bytes) where
  parsed-Signed :
      (sk id : Bytes) (f : Fields) (p : Parsed) (b : Board)
      → sk ≡ f.sk
      → id ≡ f.device_id
      → parse_sign body id ≡ p
      → (sign_parsed e sk id p b).0.status ≡ 200
      → Signed e body f (sign_parsed e sk id p b).0.body
  unfolding sign_parsed
  parsed-Signed sk id f (refused error) b at_sk at_id at_p h = absurd (omega arith)
  parsed-Signed sk id f (message text timestamp) b at_sk at_id at_p h = (
    text,
    timestamp,
    parse_sign_lem body f.device_id text timestamp (ap (parse_sign body) (sym at_id) ∙ at_p),
    rw (at_sk, at_id) refl,
  )

  with_id-Signed :
      (sk : Bytes) (id : Option Bytes) (f : Fields) (b : Board)
      → sk ≡ f.sk
      → ((device_id : Bytes) → id ≡ some device_id → device_id ≡ f.device_id)
      → (sign_with_id e body sk id b).0.status ≡ 200
      → Signed e body f (sign_with_id e body sk id b).0.body
  unfolding sign_with_id
  with_id-Signed sk none f b at_sk at_id h = absurd (omega arith)
  with_id-Signed sk (some id) f b at_sk at_id h =
      parsed-Signed sk id f (parse_sign body id) (stage Diag.sign_parse b) at_sk (at_id id refl)
        refl h

-- The id and the key that are handed out are those of the record in flash.
module _ (c : Crypto) (ks : Keystore) (s : IsCoherent c ks) (f : Fields)
    (stored : stored_fields c ks.store.flash ≡ some f) where
  key-stored : (sk : Bytes) → (keystore_signing_key c ks).0 ≡ some sk → sk ≡ f.sk
  unfolding keystore_signing_key
  key-stored sk e = elim (load_exact c ks s) [
    | inl (found, fields) ↦ cc (rw (found, keystore_signing_key) at e)
    | inr (failed, nothing) ↦ cc
  ]

  id-stored : (cap : ℕ) (id : Bytes) → (keystore_device_id c cap ks).0 ≡ some id → id ≡ f.device_id
  unfolding keystore_device_id
  id-stored cap id e = elim (load_exact c ks s) [
    | inr (failed, nothing) ↦ cc
    | inl (found, fields) ↦
        elim (Bool-cases (ltb cap (length (keystore_load c ks).1.cached_id + 1))) [
          | inl long ↦ cc (rw (found, long, keystore_device_id) at e)
          | inr fits ↦ cc (rw (found, fits, keystore_device_id) at e)
        ]
  ]

-- A record that cannot be read hands out no key.
pub no_key :
    (c : Crypto) (ks : Keystore)
    → IsCoherent c ks
    → stored_fields c ks.store.flash ≡ none
    → (keystore_signing_key c ks).0 ≡ none
unfolding keystore_signing_key
no_key c ks s nothing = elim (load_exact c ks s) [
  | inl (found, fields) ↦ cc
  | inr (failed, _) ↦ rw (failed, keystore_signing_key) refl
]

pub same_fields :
    (c : Crypto) (ks : Keystore)
    → stored_fields c (keystore_signing_key c ks).1.store.flash ≡ stored_fields c ks.store.flash
unfolding keystore_signing_key
same_fields c ks = ap (λ (st : Store). stored_fields c st.flash) (store-load c ks)

-- From the key on.
with_key-Signed :
    (e : Env) (body : Bytes) (sk : Option Bytes) (f : Fields) (b : Board)
    → IsCoherent e.crypto b.keystore
    → stored_fields e.crypto b.keystore.store.flash ≡ some f
    → ((key : Bytes) → sk ≡ some key → key ≡ f.sk)
    → (sign_with_key e body sk b).0.status ≡ 200
    → Signed e body f (sign_with_key e body sk b).0.body
unfolding sign_with_key
with_key-Signed e body none f b s stored at_sk h = absurd (omega arith)
with_key-Signed e body (some sk) f b s stored at_sk h =
    let (id, ks) = keystore_device_id e.crypto 33 b.keystore in
    with_id-Signed e body sk id f (record (with_keystore ks b) { signing_sk = sk }) (at_sk sk refl)
      (λ device_id found. id-stored e.crypto b.keystore s f stored 33 device_id found) h

with_none_lem : (e : Env) (body : Bytes) (b : Board) → (sign_with_key e body none b).0.status ≡ 503
unfolding sign_with_key
with_none_lem e body b = refl

-- Entering a stage leaves flash and cache alone.
stage-IsCoherent :
    (c : Crypto) (g : Diag.Stage) (ks : Keystore) → IsCoherent c ks → IsCoherent c (at_stage g ks)
unfolding at_stage
stage-IsCoherent c g ks s = record { agrees = s.agrees }

signing_key-IsCoherent :
    (c : Crypto) (ks : Keystore) → IsCoherent c ks → IsCoherent c (keystore_signing_key c ks).1
unfolding keystore_signing_key
signing_key-IsCoherent c ks s = load-IsCoherent c ks s

-- POST /sign answers 200 only where flash holds a record that can be read, and then with a signature,
-- made with the secret key of that record, of the three fields of the body and the device id of that
-- record, "challenge:context:timestamp:id", of less than 1024 bytes. Nothing is said of the flag: a
-- record that a power cut left without one can be read too. The keystore's cache, where it is valid,
-- agrees with flash.
pub sign_sound :
    (e : Env) (body : Bytes) (b : Board)
    → IsCoherent e.crypto b.keystore
    → (handle_sign_post e body b).0.status ≡ 200
    → (f : Fields) × (stored_fields e.crypto b.keystore.store.flash ≡ some f)
      × Signed e body f (handle_sign_post e body b).0.body
unfolding handle_sign_post at_stage
sign_sound e body b s h =
    let ks0 = at_stage Diag.sign_key (at_stage Diag.sign_enter b.keystore) in
    let s0 =
      stage-IsCoherent e.crypto Diag.sign_key (at_stage Diag.sign_enter b.keystore)
        (stage-IsCoherent e.crypto Diag.sign_enter b.keystore s) in
    let entered : Board = record (with_keystore (keystore_signing_key e.crypto ks0).1 b) {
      led = led_signal_signing e.timer e.now b.led;
    } in
    elim (Bool-cases (is_empty body)) [
      | inl nothing ↦ absurd (omega (arith, rw (nothing, handle_sign_post) at h))
      | inr something ↦ elim (Option-cases (stored_fields e.crypto b.keystore.store.flash)) [
        | inl unread ↦
            let h503 : ◌≡◌ {A = ℕ} 503 200 =
              sym (
                ap (λ o. (sign_with_key e body o entered).0.status) (no_key e.crypto ks0 s0 unread)
                ∙ with_none_lem e body entered)
              ∙ (rw (something, handle_sign_post) at h) in
            absurd (omega arith)
        | inr (f, stored) ↦ (
          f,
          stored,
          rw (something, handle_sign_post)
              (with_key-Signed e body _ f entered (signing_key-IsCoherent e.crypto ks0 s0)
                (same_fields e.crypto ks0 ∙ stored) (key-stored e.crypto ks0 s0 f stored)
                (rw (something, handle_sign_post) at h)),
        )
      ]
    ]
