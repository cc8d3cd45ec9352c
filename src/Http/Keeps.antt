-- ===== src/Http/Keeps.antt =====
-- Every handler keeps the keystore's invariant.
use roman_firmware.Prelude.{
  ℕ, ◌||◌, Option, none, some, Bytes, codes, bytes_eq, leb, length, Bool-cases, inl, inr,
}
use roman_firmware.Base64.{is_empty}
use roman_firmware.CString.{ℤ}
use roman_firmware.Diag
use roman_firmware.Storage.{storage_clear}
use roman_firmware.Storage.Assumptions.{CryptoLaws, HardwareLaws}
use roman_firmware.Keystore.{
  Status, ok, err_arg, err_mismatch, err_already, err_flash, ClearStatus, clear_ok, clear_empty,
  clear_err_arg, clear_err_denied, clear_err_flash, keystore_writen, keystore_device_id,
  keystore_public_key,
}
use roman_firmware.Keystore.Invariant.{
  IsSound, stage-IsSound, state-IsSound, signing_key-IsSound, device_id-IsSound, public_key-IsSound,
}
use roman_firmware.Keystore.Updates.{provision-IsSound, erase-IsSound, clear-IsSound}
use roman_firmware.Http.Board.{Board, Env, stage, with_keystore}
use roman_firmware.Http.Response.{Reply}
use roman_firmware.Http.Sign.{
  Parsed, refused, message, parse_sign, sign_parsed, sign_with_id, sign_with_key, handle_sign_post,
}
use roman_firmware.Http.Provisioning.{
  over, write_status, write_fields, handle_write_post, clear_status, clear_field, handle_clear_post,
}
use roman_firmware.Http.Debug.{
  finish_snapshot, handle_info, debug_snapshot, debug_clear, debug_action, handle_debug,
}
use roman_firmware.Http.Routing.{http_send_404}

-- The answer leaves a sound keystore.
abbrev pub Keeps : Env → Reply × Board → Type 0
Keeps e answer = IsSound e.crypto answer.1.keystore

module _ (e : Env) (laws : CryptoLaws e.crypto) (hl : HardwareLaws e.hardware) where
  module _ (b : Board) (s : IsSound e.crypto b.keystore) where
    pub Keeps-404 : Keeps e (http_send_404 b)
    unfolding http_send_404
    Keeps-404 = s

    Keeps-parsed : (sk id : Bytes) (p : Parsed) → Keeps e (sign_parsed e sk id p b)
    unfolding sign_parsed
    Keeps-parsed sk id (refused error) = s
    Keeps-parsed sk id (message text timestamp) =
        stage-IsSound e.crypto Diag.sign_done
          (stage Diag.sign_reply (stage Diag.sign_crypto b)).keystore
          (stage-IsSound e.crypto Diag.sign_reply (stage Diag.sign_crypto b).keystore
            (stage-IsSound e.crypto Diag.sign_crypto b.keystore s))

    Keeps-write_status : (status : Status) → Keeps e (write_status status b)
    unfolding write_status
    Keeps-write_status ok = s
    Keeps-write_status err_arg = s
    Keeps-write_status err_mismatch = s
    Keeps-write_status err_already = s
    Keeps-write_status err_flash = s

    Keeps-clear_status : (status : ClearStatus) → Keeps e (clear_status status b)
    unfolding clear_status
    Keeps-clear_status clear_ok = s
    Keeps-clear_status clear_empty = s
    Keeps-clear_status clear_err_arg = s
    Keeps-clear_status clear_err_denied = s
    Keeps-clear_status clear_err_flash = s

  Keeps-with_id :
      (b : Board)
      → IsSound e.crypto b.keystore
      → (body sk : Bytes) (id : Option Bytes) → Keeps e (sign_with_id e body sk id b)
  unfolding sign_with_id
  Keeps-with_id b s body sk none = s
  Keeps-with_id b s body sk (some id) =
      Keeps-parsed (stage Diag.sign_parse b) (stage-IsSound e.crypto Diag.sign_parse b.keystore s)
        sk id (parse_sign body id)

  Keeps-with_key :
      (b : Board)
      → IsSound e.crypto b.keystore
      → (body : Bytes) (sk : Option Bytes) → Keeps e (sign_with_key e body sk b)
  unfolding sign_with_key
  Keeps-with_key b s body none = s
  Keeps-with_key b s body (some sk) =
      let (id, ks) = keystore_device_id e.crypto 33 b.keystore in
      Keeps-with_id (record (with_keystore ks b) { signing_sk = sk })
        (device_id-IsSound e.crypto 33 b.keystore s) body sk id

  pub Keeps-sign :
      (b : Board)
      → IsSound e.crypto b.keystore
      → (body : Bytes) → Keeps e (handle_sign_post e body b)
  unfolding handle_sign_post
  Keeps-sign b s body =
      let entered = stage-IsSound e.crypto Diag.sign_enter b.keystore s in
      let keyed = stage-IsSound e.crypto Diag.sign_key (stage Diag.sign_enter b).keystore entered in
      elim (Bool-cases (is_empty body)) [
        | inl nothing ↦ rw (nothing, handle_sign_post) entered
        | inr something ↦
            rw (something, handle_sign_post)
              (Keeps-with_key _ (signing_key-IsSound e.crypto _ keyed) body _)
      ]

  Keeps-fields :
      (b : Board)
      → IsSound e.crypto b.keystore
      → (pk sk id : Option Bytes) → Keeps e (write_fields e pk sk id b)
  unfolding write_fields
  Keeps-fields b s none sk id = s
  Keeps-fields b s (some pk) none id = s
  Keeps-fields b s (some pk) (some sk) none = s
  Keeps-fields b s (some pk) (some sk) (some id) =
      Keeps-write_status _
        (provision-IsSound e.crypto e.hardware laws hl pk sk id _
          (stage-IsSound e.crypto Diag.received b.keystore s))
        _

  pub Keeps-write :
      (b : Board)
      → IsSound e.crypto b.keystore
      → (body : Bytes) (n : ℤ) → Keeps e (handle_write_post e body n b)
  unfolding handle_write_post
  Keeps-write b s body n = elim (Bool-cases (keystore_writen b.keystore)) [
    | inl set ↦ rw (set, handle_write_post) s
    | inr unset ↦ elim (Bool-cases (is_empty body)) [
      | inl nothing ↦ rw (unset, nothing, handle_write_post) s
      | inr something ↦ elim (Bool-cases (over 1024 n)) [
        | inl large ↦ rw (unset, something, large, handle_write_post) s
        | inr fits ↦ rw (unset, something, fits, handle_write_post) (Keeps-fields b s _ _ _)
      ]
    ]
  ]

  Keeps-clear_field :
      (b : Board)
      → IsSound e.crypto b.keystore
      → (key : Option Bytes) → Keeps e (clear_field e key b)
  unfolding clear_field
  Keeps-clear_field b s none = s
  Keeps-clear_field b s (some key) =
      Keeps-clear_status _ (clear-IsSound e.crypto e.hardware laws hl key b.keystore s) _

  pub Keeps-clear :
      (b : Board)
      → IsSound e.crypto b.keystore
      → (body : Bytes) (n : ℤ) → Keeps e (handle_clear_post e body n b)
  unfolding handle_clear_post
  Keeps-clear b s body n = elim (Bool-cases (is_empty body)) [
    | inl nothing ↦ rw (nothing, handle_clear_post) s
    | inr something ↦ elim (Bool-cases (over 1024 n)) [
      | inl large ↦ rw (something, large, handle_clear_post) s
      | inr fits ↦ rw (something, fits, handle_clear_post) (Keeps-clear_field b s _)
    ]
  ]

  pub Keeps-info : (b : Board) → IsSound e.crypto b.keystore → Keeps e (handle_info e b)
  unfolding handle_info
  Keeps-info b s =
      state-IsSound e.crypto (keystore_device_id e.crypto 33 b.keystore).1
        (device_id-IsSound e.crypto 33 b.keystore s)

  Keeps-finish :
      (b : Board) → IsSound e.crypto b.keystore → (text : Bytes) → Keeps e (finish_snapshot text b)
  unfolding finish_snapshot
  Keeps-finish b s text = elim (Bool-cases (leb 1280 (length text))) [
    | inl long ↦ rw (long, finish_snapshot) s
    | inr fits ↦ rw (fits, finish_snapshot) s
  ]

  Keeps-snapshot :
      (conns : ℕ) (b : Board) → IsSound e.crypto b.keystore → Keeps e (debug_snapshot e conns b)
  unfolding debug_snapshot
  Keeps-snapshot conns b s =
      let (pk, ks) = keystore_public_key e.crypto b.keystore in
      Keeps-finish _ (device_id-IsSound e.crypto 33 ks (public_key-IsSound e.crypto b.keystore s)) _

  Keeps-debug_clear : (b : Board) → IsSound e.crypto b.keystore → Keeps e (debug_clear e b)
  unfolding debug_clear
  Keeps-debug_clear b s = elim (Bool-cases (storage_clear e.hardware b.keystore.store).0) [
    | inl erased ↦
        rw (erased, debug_clear)
          (rw erased at (erase-IsSound e.crypto e.hardware laws hl b.keystore s))
    | inr refused_ ↦
        rw (refused_, debug_clear)
          (rw refused_ at (erase-IsSound e.crypto e.hardware laws hl b.keystore s))
  ]

  Keeps-action :
      (conns : ℕ) (b : Board)
      → IsSound e.crypto b.keystore
      → (action : Option Bytes) → Keeps e (debug_action e conns action b)
  unfolding debug_action
  Keeps-action conns b s none = Keeps-snapshot conns b s
  Keeps-action conns b s (some action) =
      elim (Bool-cases (is_empty action || bytes_eq action (codes "snapshot"))) [
        | inl shown ↦ rw (shown, debug_action) (Keeps-snapshot conns b s)
        | inr more ↦ elim (Bool-cases (bytes_eq action (codes "clear"))) [
          | inl clear ↦ rw (more, clear, debug_action) (Keeps-debug_clear b s)
          | inr other ↦ elim (Bool-cases (bytes_eq action (codes "reset"))) [
            | inl reset ↦ rw (more, other, reset, debug_action) s
            | inr unknown ↦ rw (more, other, unknown, debug_action) s
          ]
        ]
      ]

  pub Keeps-debug :
      (conns : ℕ) (b : Board)
      → IsSound e.crypto b.keystore
      → (body : Bytes) (n : ℤ) → Keeps e (handle_debug e conns body n b)
  unfolding handle_debug
  Keeps-debug conns b s body n = elim (Bool-cases (over 256 n)) [
    | inl large ↦ rw (large, handle_debug) s
    | inr fits ↦ elim (Bool-cases (is_empty body)) [
      | inl nothing ↦ rw (fits, nothing, handle_debug) (Keeps-snapshot conns b s)
      | inr something ↦ rw (fits, something, handle_debug) (Keeps-action conns b s _)
    ]
  ]
