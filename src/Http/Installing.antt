-- ===== src/Http/Installing.antt =====
-- What POST /write has done when it answers 200.
use roman_firmware.Prelude.{
  ◌≡◌, refl, ap, ◌∙◌, inl, inr, true, false, Option, none, some, Bytes, codes, arith, length,
  Bool-cases,
}
use roman_firmware.Base64.{is_empty}
use roman_firmware.CString.{ℤ}
use roman_firmware.Diag
use roman_firmware.Record.{device_id_valid}
use roman_firmware.Storage.{storage_writen}
use roman_firmware.Storage.Assumptions.{CryptoLaws, HardwareLaws}
use roman_firmware.Keystore.{
  Status, ok, err_arg, err_mismatch, err_already, err_flash, at_stage, keystore_writen,
  keystore_provision,
}
use roman_firmware.Keystore.Provision.{Installed, provision_sound}
use roman_firmware.Http.Board.{Board, Env, stage, with_keystore}
use roman_firmware.Http.Unchanged.{flash_of}
use roman_firmware.Http.Json.{json_get_string}
use roman_firmware.Http.Provisioning.{over, write_status, write_fields, handle_write_post}

-- The board holds the record that the three texts stand for, on a board whose flag was not set.
abbrev pub Provisioned : Env → Bytes → Bytes → Bytes → Board → Board → Type 0
Provisioned e pk sk id before after =
    (storage_writen before.keystore.store.flash ≡ false)
    × (device_id_valid id ≡ true)
    × Installed e.crypto pk sk id after.keystore

status_ok :
    (status : Status) (b : Board)
    → (write_status status b).0.status ≡ 200
    → (status ≡ ok) × ((write_status status b).1.keystore ≡ b.keystore)
unfolding write_status
status_ok ok b h = (refl, refl)
status_ok err_arg b h = absurd (omega arith)
status_ok err_mismatch b h = absurd (omega arith)
status_ok err_already b h = absurd (omega arith)
status_ok err_flash b h = absurd (omega arith)

module _ (e : Env) (laws : CryptoLaws e.crypto) (hl : HardwareLaws e.hardware) (b : Board)
    (size : length b.keystore.store.flash ≡ 4096) where
  -- The three fields as they were looked up.
  abbrev Found : Option Bytes → Option Bytes → Option Bytes → Board → Type 0
  Found p s i after =
      (pk : Bytes) × (sk : Bytes) × (id : Bytes) × (p ≡ some pk)
      × (s ≡ some sk)
      × (i ≡ some id)
      × Provisioned e pk sk id b after

  fields-Found :
      (p s i : Option Bytes)
      → (write_fields e p s i b).0.status ≡ 200
      → Found p s i (write_fields e p s i b).1
  unfolding write_fields
  fields-Found none s i h = absurd (omega arith)
  fields-Found (some pk) none i h = absurd (omega arith)
  fields-Found (some pk) (some sk) none h = absurd (omega arith)
  fields-Found (some pk) (some sk) (some id) h =
      let ks = (stage Diag.received b).keystore in
      let result = keystore_provision e.crypto e.hardware (some pk) (some sk) (some id) ks in
      let (done, same) = status_ok result.0 (with_keystore result.1 b) h in
      let (unset, valid, installed) =
        provision_sound e.crypto e.hardware pk sk id ks laws hl (unfold at_stage in size) done in
      (pk, sk, id, refl, refl, refl, (unfold at_stage in unset, valid, rw same installed))

refused_lem :
    (e : Env) (body : Bytes) (n : ℤ) (b : Board)
    → storage_writen b.keystore.store.flash ≡ true
    → (let (r, b') = handle_write_post e body n b in (r.status ≡ 403) × (b'.keystore ≡ b.keystore))
unfolding handle_write_post keystore_writen
refused_lem e body n b set = rw (set, handle_write_post) (refl, refl)

-- POST /write answers 200 only on a board whose flag was not set. The body then has the fields pk, sk
-- and device_id; the id is valid, the keys decode to a pair that belongs together, and flash reads
-- back that record, with the flag set. TweetNaCl and the flash calls behave as assumed, and the sector
-- has 4096 bytes.
pub write_sound :
    (e : Env) (body : Bytes) (n : ℤ) (b : Board)
    → CryptoLaws e.crypto
    → HardwareLaws e.hardware
    → length b.keystore.store.flash ≡ 4096
    → (handle_write_post e body n b).0.status ≡ 200
    → (pk : Bytes) × (sk : Bytes) × (id : Bytes) × (json_get_string body (codes "pk") 64 ≡ some pk)
      × (json_get_string body (codes "sk") 128 ≡ some sk)
      × (json_get_string body (codes "device_id") 33 ≡ some id)
      × Provisioned e pk sk id b (handle_write_post e body n b).1
unfolding handle_write_post
write_sound e body n b laws hl size h = elim (Bool-cases (keystore_writen b.keystore)) [
  | inl set ↦ absurd (omega (arith, rw (set, handle_write_post) at h))
  | inr unset ↦ elim (Bool-cases (is_empty body)) [
    | inl nothing ↦ absurd (omega (arith, rw (unset, nothing, handle_write_post) at h))
    | inr something ↦ elim (Bool-cases (over 1024 n)) [
      | inl large ↦ absurd (omega (arith, rw (unset, something, large, handle_write_post) at h))
      | inr fits ↦
          rw (unset, something, fits, handle_write_post)
            (fields-Found e laws hl b size _ _ _
              (rw (unset, something, fits, handle_write_post) at h))
    ]
  ]
]

-- Once POST /write has answered 200, for as long as flash stays as that request left it, every further
-- POST /write is answered 403, whatever it carries and whatever else has changed on the board, and the
-- keystore stays as it is. TweetNaCl and the flash calls behave as assumed at the first one, and the
-- sector has 4096 bytes.
pub write_once :
    (e e' : Env) (body body' : Bytes) (n n' : ℤ) (b later : Board)
    → CryptoLaws e.crypto
    → HardwareLaws e.hardware
    → length b.keystore.store.flash ≡ 4096
    → (handle_write_post e body n b).0.status ≡ 200
    → flash_of later ≡ flash_of (handle_write_post e body n b).1
    → (let (r, b') = handle_write_post e' body' n' later in
        (r.status ≡ 403) × (b'.keystore ≡ later.keystore))
write_once e e' body body' n n' b later laws hl size h same =
    let (pk, sk, id, e1, e2, e3, (unset, valid, (pk', sk', d1, hp, d2, half, holds))) =
      write_sound e body n b laws hl size h in
    refused_lem e' body' n' later (ap storage_writen same ∙ holds.flag)
