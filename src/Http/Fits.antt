-- ===== src/Http/Fits.antt =====
-- The size of the answers.
use roman_firmware.Prelude.{
  ℕ, ◌+◌, ◌≤◌, ◌≡◌, refl, Option, none, some, ◌++◌, arith, Bytes, codes, length, length-append, leb,
  Bool-cases, inl, inr,
}
use roman_firmware.CString.{decimal}
use roman_firmware.CString.Search.{length-decimal, length-snprintf}
use roman_firmware.Base64.{is_empty}
use roman_firmware.CString.{ℤ}
use roman_firmware.Keystore.{
  Status, ok, err_arg, err_mismatch, err_already, err_flash, ClearStatus, clear_ok, clear_empty,
  clear_err_arg, clear_err_denied, clear_err_flash, keystore_writen,
}
use roman_firmware.Http.Json.{json_get_string}
use roman_firmware.Http.Sign.{
  Parsed, refused, message, field, joined, parse_sign, signature_body, sign_parsed, sign_with_id,
  sign_with_key, handle_sign_post,
}
use roman_firmware.Http.Provisioning.{
  over, ok_body, write_status, write_fields, handle_write_post, clear_status, clear_key,
  clear_field, handle_clear_post,
}
use roman_firmware.Http.Board.{Board, Env}
use roman_firmware.Http.Response.{Reply, status_text, header}

length-status_text : (status : ℕ) → length (status_text status) ≤ 24
unfolding status_text
length-status_text status = ground arith

abbrev type_line : Bytes
type_line = codes "\r\nContent-Type: application/json; charset=utf-8\r\nContent-Length: "

abbrev last_lines : Bytes
last_lines =
    codes
      "\r\nConnection: close\r\nAccess-Control-Allow-Origin: *\r\nAccess-Control-Allow-Methods: GET, POST, OPTIONS\r\nAccess-Control-Allow-Headers: Content-Type\r\n\r\n"

-- The header, around its three varying texts.
abbrev shape : Bytes → Bytes → Bytes → Bytes
shape status reason size =
    codes "HTTP/1.1 " ++ (status ++ (codes " " ++ (reason ++ (type_line ++ (size ++ last_lines)))))

length-type_line : length type_line ≡ 65
length-type_line = refl

length-last_lines : length last_lines ≡ 149
length-last_lines = refl

length-shape :
    (status reason size : Bytes)
    → length (shape status reason size) ≤ 256 + (length status + (length reason + length size))
length-shape status reason size =
    let sized = size ++ last_lines in
    let typed = type_line ++ sized in
    omega (
      arith,
      length-append size last_lines,
      length-append type_line sized,
      length-append reason typed,
      length-append status (codes " " ++ (reason ++ typed)),
      length-type_line,
      length-last_lines,
    )

pub length-header : (status n : ℕ) → length (header status n) ≤ 300
unfolding header
length-header status n =
    let all = length-shape (decimal status) (status_text status) (decimal n) in
    omega (arith, all, length-decimal status, length-decimal n, length-status_text status)

-- What a handler answers with is shorter than the buffer of POST /debug.
abbrev pub Fits : Reply × Board → Type 0
Fits answer = length answer.0.body ≤ 1279

abbrev Short : Parsed → Type 0
Short (refused error) = length error ≤ 1279
Short (message text timestamp) = Unit

field-Short :
    (o : Option Bytes) (error : Bytes) (next : Bytes → Parsed)
    → length error ≤ 1279
    → ((value : Bytes) → Short (next value))
    → Short (field o error next)
field-Short none error next h k = h
field-Short (some value) error next h k = k value

parse_sign-Short : (body device_id : Bytes) → Short (parse_sign body device_id)
unfolding parse_sign
parse_sign-Short body device_id =
    field-Short (json_get_string body (codes "challenge") 256) _ _ (omega arith) λ challenge.
      field-Short (json_get_string body (codes "context") 128) _ _ (omega arith) λ context.
        field-Short (json_get_string body (codes "timestamp") 128) _ _ (omega arith) λ timestamp.
          elim (Bool-cases (leb 1024 (length (joined challenge context timestamp device_id)))) [
            | inl long ↦ rw long (omega arith)
            | inr fits ↦ rw fits tt
          ]

module _ (e : Env) where
  parsed-Fits : (sk id : Bytes) (p : Parsed) (b : Board) → Short p → Fits (sign_parsed e sk id p b)
  unfolding sign_parsed signature_body
  parsed-Fits sk id (refused error) b h = h
  parsed-Fits sk id (message text timestamp) b h = omega (arith, length-snprintf 1023 _)

  with_id-Fits :
      (body sk : Bytes) (id : Option Bytes) (b : Board) → Fits (sign_with_id e body sk id b)
  unfolding sign_with_id
  with_id-Fits body sk none b = omega arith
  with_id-Fits body sk (some id) b =
      parsed-Fits sk id (parse_sign body id) _ (parse_sign-Short body id)

  with_key-Fits : (body : Bytes) (sk : Option Bytes) (b : Board) → Fits (sign_with_key e body sk b)
  unfolding sign_with_key
  with_key-Fits body none b = omega arith
  with_key-Fits body (some sk) b = with_id-Fits body sk _ _

  pub sign-Fits : (body : Bytes) (b : Board) → Fits (handle_sign_post e body b)
  unfolding handle_sign_post
  sign-Fits body b = elim (Bool-cases (is_empty body)) [
    | inl nothing ↦ rw (nothing, handle_sign_post) (omega arith)
    | inr something ↦ rw (something, handle_sign_post) (with_key-Fits body _ _)
  ]

  ok_body-short : (o : Option Bytes) → length (ok_body o) ≤ 1279
  unfolding ok_body
  ok_body-short none = omega arith
  ok_body-short (some pk) = omega (arith, length-snprintf 159 _)

  write_status-Fits : (status : Status) (b : Board) → Fits (write_status status b)
  unfolding write_status
  write_status-Fits ok b = ok_body-short _
  write_status-Fits err_arg b = omega arith
  write_status-Fits err_mismatch b = omega arith
  write_status-Fits err_already b = omega arith
  write_status-Fits err_flash b = omega arith

  fields-Fits : (pk sk id : Option Bytes) (b : Board) → Fits (write_fields e pk sk id b)
  unfolding write_fields
  fields-Fits none sk id b = omega arith
  fields-Fits (some pk) none id b = omega arith
  fields-Fits (some pk) (some sk) none b = omega arith
  fields-Fits (some pk) (some sk) (some id) b = write_status-Fits _ _

  pub write-Fits : (body : Bytes) (n : ℤ) (b : Board) → Fits (handle_write_post e body n b)
  unfolding handle_write_post
  write-Fits body n b = elim (Bool-cases (keystore_writen b.keystore)) [
    | inl set ↦ rw (set, handle_write_post) (omega arith)
    | inr unset ↦ elim (Bool-cases (is_empty body)) [
      | inl nothing ↦ rw (unset, nothing, handle_write_post) (omega arith)
      | inr something ↦ elim (Bool-cases (over 1024 n)) [
        | inl large ↦ rw (unset, something, large, handle_write_post) (omega arith)
        | inr fits ↦ rw (unset, something, fits, handle_write_post) (fields-Fits _ _ _ b)
      ]
    ]
  ]

  clear_status-Fits : (status : ClearStatus) (b : Board) → Fits (clear_status status b)
  unfolding clear_status
  clear_status-Fits clear_ok b = omega arith
  clear_status-Fits clear_empty b = omega arith
  clear_status-Fits clear_err_arg b = omega arith
  clear_status-Fits clear_err_denied b = omega arith
  clear_status-Fits clear_err_flash b = omega arith

  clear_field-Fits : (key : Option Bytes) (b : Board) → Fits (clear_field e key b)
  unfolding clear_field
  clear_field-Fits none b = omega arith
  clear_field-Fits (some key) b = clear_status-Fits _ _

  pub clear-Fits : (body : Bytes) (n : ℤ) (b : Board) → Fits (handle_clear_post e body n b)
  unfolding handle_clear_post
  clear-Fits body n b = elim (Bool-cases (is_empty body)) [
    | inl nothing ↦ rw (nothing, handle_clear_post) (omega arith)
    | inr something ↦ elim (Bool-cases (over 1024 n)) [
      | inl large ↦ rw (something, large, handle_clear_post) (omega arith)
      | inr fits ↦ rw (something, fits, handle_clear_post) (clear_field-Fits (clear_key body) b)
    ]
  ]
