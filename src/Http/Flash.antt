-- ===== src/Http/Flash.antt =====
-- Which requests may change what is stored.
use roman_firmware.Prelude.{
  ℕ, ◌≡◌, refl, ap, ◌∙◌, ◌⊎◌, inl, inr, false, ◌||◌, Option, none, some, Bytes, codes, bytes_eq,
  bytes_eq→eq, Bool-cases, Option-cases,
}
use roman_firmware.Base64.{is_empty, b64_decode}
use roman_firmware.CString.{ℤ}
use roman_firmware.Record.{Fields, c_str}
use roman_firmware.Storage.{storage_writen}
use roman_firmware.Storage.Assumptions.{CryptoLaws, HardwareLaws}
use roman_firmware.Keystore.{
  ClearStatus, clear_ok, clear_empty, clear_err_arg, clear_err_denied, clear_err_flash,
  keystore_writen, keystore_clear,
}
use roman_firmware.Keystore.Coherence.{stored_fields}
use roman_firmware.Keystore.Invariant.{IsSound}
use roman_firmware.Keystore.Clear.{Presents, clear_authorised}
use roman_firmware.Http.Board.{Board, Env, with_keystore}
use roman_firmware.Http.Json.{json_get_string}
use roman_firmware.Http.Provisioning.{
  over, handle_write_post, clear_status, clear_key, clear_field, handle_clear_post,
}
use roman_firmware.Http.Debug.{debug_action, handle_debug}
use roman_firmware.Http.Routing.{
  request_line, request_body, http_send_404, handle_post, dispatch, http_process_request,
}
use roman_firmware.Http.Unchanged.{flash_of, Same, Same-sign, Same-info, Same-snapshot}
use roman_firmware.Http.Routing.Cases.{counted, handle_get-each, handle_post-each, dispatch-each}

-- Why a request may change flash: a first provisioning; an erase for a caller who shows the stored
-- secret key; or the maintenance endpoint.
abbrev pub Cause : Env → Bytes → Bytes → Bytes → Board → Type 0
Cause e method path body b =
    (method ≡ codes "POST")
    × ((path ≡ codes "/write") × (storage_writen (flash_of b) ≡ false)
        ⊎ ((path ≡ codes "/clear")
              × ((key : Bytes) × (given : Bytes) × (f : Fields) × (clear_key body ≡ some key)
                  × (b64_decode key 64 ≡ some given)
                  × (stored_fields e.crypto (flash_of b) ≡ some f)
                  × Presents given f.sk)
            ⊎ (path ≡ codes "/debug")
              × (json_get_string body (codes "action") 16 ≡ some (codes "clear"))))

module _ (e : Env) (laws : CryptoLaws e.crypto) (hl : HardwareLaws e.hardware) where
  Same-clear_status :
      (status : ClearStatus) (b : Board) → flash_of (clear_status status b).1 ≡ flash_of b
  unfolding clear_status
  Same-clear_status clear_ok b = refl
  Same-clear_status clear_empty b = refl
  Same-clear_status clear_err_arg b = refl
  Same-clear_status clear_err_denied b = refl
  Same-clear_status clear_err_flash b = refl

  abbrev Shown : Option Bytes → Board → Type 0
  Shown o b =
      (key : Bytes) × (given : Bytes) × (f : Fields) × (o ≡ some key)
      × (b64_decode key 64 ≡ some given)
      × (stored_fields e.crypto (flash_of b) ≡ some f)
      × Presents given f.sk

  clear_field-Shown :
      (o : Option Bytes) (b : Board)
      → IsSound e.crypto b.keystore
      → (Same b (clear_field e o b)) ⊎ Shown o b
  unfolding clear_field
  clear_field-Shown none b s = inl refl
  clear_field-Shown (some key) b s =
      let result = keystore_clear e.crypto e.hardware (some key) b.keystore in
      elim (clear_authorised e.crypto e.hardware key b.keystore laws hl
        (record { agrees = s.agrees }) s.size) [
          | inl same ↦ inl (Same-clear_status result.0 (with_keystore result.1 b) ∙ same)
          | inr (done, (f, given, stored, decoded, shown), blank) ↦
              inr (key, given, f, refl, decoded, stored, shown)
        ]

  clear-Shown :
      (body : Bytes) (n : ℤ) (b : Board)
      → IsSound e.crypto b.keystore
      → (Same b (handle_clear_post e body n b)) ⊎ Shown (clear_key body) b
  unfolding handle_clear_post
  clear-Shown body n b s = elim (Bool-cases (is_empty body)) [
    | inl nothing ↦ rw (nothing, handle_clear_post) (inl refl)
    | inr something ↦ elim (Bool-cases (over 1024 n)) [
      | inl large ↦ rw (something, large, handle_clear_post) (inl refl)
      | inr fits ↦ rw (something, fits, handle_clear_post) (clear_field-Shown (clear_key body) b s)
    ]
  ]

  write-Unset :
      (body : Bytes) (n : ℤ) (b : Board)
      → (Same b (handle_write_post e body n b)) ⊎ (storage_writen (flash_of b) ≡ false)
  unfolding handle_write_post keystore_writen
  write-Unset body n b = elim (Bool-cases (storage_writen (flash_of b))) [
    | inl set ↦ inl (rw (set, handle_write_post) refl)
    | inr unset ↦ inr unset
  ]

  action-Same :
      (conns : ℕ) (action : Option Bytes) (b : Board)
      → (Same b (debug_action e conns action b)) ⊎ (action ≡ some (codes "clear"))
  unfolding debug_action
  action-Same conns none b = inl (Same-snapshot e conns b)
  action-Same conns (some action) b =
      elim (Bool-cases (is_empty action || bytes_eq action (codes "snapshot"))) [
        | inl shown ↦ inl (rw (shown, debug_action) (Same-snapshot e conns b))
        | inr more ↦ elim (Bool-cases (bytes_eq action (codes "clear"))) [
          | inl clear ↦ inr (ap some (bytes_eq→eq action (codes "clear") clear))
          | inr other ↦ elim (Bool-cases (bytes_eq action (codes "reset"))) [
            | inl reset ↦ inl (rw (more, other, reset, debug_action) refl)
            | inr unknown ↦ inl (rw (more, other, unknown, debug_action) refl)
          ]
        ]
      ]

  debug-Same :
      (conns : ℕ) (body : Bytes) (n : ℤ) (b : Board)
      → (Same b (handle_debug e conns body n b))
        ⊎ (json_get_string body (codes "action") 16 ≡ some (codes "clear"))
  unfolding handle_debug
  debug-Same conns body n b = elim (Bool-cases (over 256 n)) [
    | inl large ↦ inl (rw (large, handle_debug) refl)
    | inr fits ↦ elim (Bool-cases (is_empty body)) [
      | inl nothing ↦ inl (rw (fits, nothing, handle_debug) (Same-snapshot e conns b))
      | inr something ↦ elim (action-Same conns (json_get_string body (codes "action") 16) b) [
        | inl same ↦ inl (rw (fits, something, handle_debug) same)
        | inr clear ↦ inr clear
      ]
    ]
  ]

  post-Cause :
      (conns : ℕ) (path body : Bytes) (n : ℤ) (b : Board)
      → IsSound e.crypto b.keystore
      → (Same b (handle_post e conns path body n b)) ⊎ Cause e (codes "POST") path body b
  post-Cause conns path body n b s =
      handle_post-each e (λ answer. Same b answer ⊎ Cause e (codes "POST") path body b) conns path
        body n b (λ at. inl (Same-sign e body b))
        (λ at. elim (write-Unset body n b) [
          | inl same ↦ inl same
          | inr unset ↦ inr (refl, inl (at, unset))
        ])
        (λ at. elim (clear-Shown body n b s) [
          | inl same ↦ inl same
          | inr shown ↦ inr (refl, inr (inl (at, shown)))
        ])
        (λ at. elim (debug-Same conns body n b) [
          | inl same ↦ inl same
          | inr clear ↦ inr (refl, inr (inr (at, clear)))
        ])
        (unfold http_send_404 in inl refl)

  dispatch-Cause :
      (conns : ℕ) (method path body : Bytes) (n : ℤ) (b : Board)
      → IsSound e.crypto b.keystore
      → (Same b (dispatch e conns method path body n b)) ⊎ Cause e method path body b
  dispatch-Cause conns method path body n b s =
      dispatch-each e (λ answer. Same b answer ⊎ Cause e method path body b) conns method path body
        n b (λ r. inl refl)
        (inl (
          handle_get-each e (Same (counted b)) path (counted b) (λ r. refl)
            (Same-info e (counted b)) (unfold http_send_404 in refl)))
        (λ at. elim (post-Cause conns path body n (counted b) s) [
          | inl same ↦ inl same
          | inr (_, cause) ↦ inr (at, cause)
        ])
        (unfold http_send_404 in inl refl)

-- A request changes flash only as POST /write while the flag is not set, as POST /clear with the
-- secret key that is stored, or as POST /debug with the action clear. The keystore is sound, and
-- TweetNaCl and the flash calls behave as assumed.
pub process-Cause :
    (e : Env) (conns : ℕ) (buf : Bytes) (n : ℤ) (b : Board)
    → CryptoLaws e.crypto
    → HardwareLaws e.hardware
    → IsSound e.crypto b.keystore
    → (flash_of (http_process_request e conns buf n b).1 ≡ flash_of b)
      ⊎ ((method : Bytes) × (path : Bytes) × (request_line (c_str buf) ≡ some (method, path))
          × Cause e method path (request_body (c_str buf)) b)
unfolding http_process_request http_send_404
process-Cause e conns buf n b laws hl s =
    let body = request_body (c_str buf) in
    elim (Option-cases (request_line (c_str buf))) [
      | inl malformed ↦ rw malformed (inl refl)
      | inr ((method, path), found) ↦
          rw found (elim (dispatch-Cause e laws hl conns method path body n b s) [
            | inl same ↦ inl same
            | inr cause ↦ inr (method, path, refl, cause)
          ])
    ]
