-- ===== src/Http/Wiped.antt =====
-- The copy of the secret key that POST /sign takes.
use roman_firmware.Prelude.{◌≡◌, refl, Option, none, some, Bytes, replicate, Bool-cases, inl, inr}
use roman_firmware.Base64.{is_empty}
use roman_firmware.Diag
use roman_firmware.Http.Board.{Board, Env, stage}
use roman_firmware.Http.Sign.{
  Parsed, refused, message, parse_sign, sign_parsed, sign_with_id, sign_with_key, handle_sign_post,
}

-- No secret is left in the copy.
abbrev pub IsWiped : Board → Type 0
IsWiped b = b.signing_sk ≡ replicate 64 0

module _ (e : Env) (body : Bytes) where
  parsed-IsWiped : (sk id : Bytes) (p : Parsed) (b : Board) → IsWiped (sign_parsed e sk id p b).1
  unfolding sign_parsed
  parsed-IsWiped sk id (refused error) b = refl
  parsed-IsWiped sk id (message text timestamp) b = refl

  with_id-IsWiped :
      (sk : Bytes) (id : Option Bytes) (b : Board) → IsWiped (sign_with_id e body sk id b).1
  unfolding sign_with_id
  with_id-IsWiped sk none b = refl
  with_id-IsWiped sk (some id) b =
      parsed-IsWiped sk id (parse_sign body id) (stage Diag.sign_parse b)

  with_key-IsWiped :
      (sk : Option Bytes) (b : Board) → IsWiped b → IsWiped (sign_with_key e body sk b).1
  unfolding sign_with_key
  with_key-IsWiped none b h = h
  with_key-IsWiped (some sk) b h = with_id-IsWiped sk _ _

-- On every path through POST /sign, answered or refused, the copy of the secret key holds zeros at the
-- end, as it did before.
pub sign-IsWiped :
    (e : Env) (body : Bytes) (b : Board) → IsWiped b → IsWiped (handle_sign_post e body b).1
unfolding handle_sign_post
sign-IsWiped e body b h = elim (Bool-cases (is_empty body)) [
  | inl nothing ↦ rw (nothing, handle_sign_post) h
  | inr something ↦ rw (something, handle_sign_post) (with_key-IsWiped e body _ _ h)
]
