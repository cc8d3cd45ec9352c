-- ===== src/Http/Locked.antt =====
-- A provisioned board stays as it is, whatever is sent to it, until someone unlocks it.
use roman_firmware.Prelude.{
  ℕ, ◌≡◌, refl, ap, subst, ◌∙◌, ◌⊎◌, inl, inr, true, false, Option, none, some, Bytes, codes, ◌++◌,
}
use roman_firmware.Base64.{b64_decode}
use roman_firmware.Record.{Fields, c_str}
use roman_firmware.Storage.{Crypto, storage_writen}
use roman_firmware.Storage.Assumptions.{CryptoLaws}
use roman_firmware.Keystore.Coherence.{stored_fields}
use roman_firmware.Keystore.Clear.{Presents}
use roman_firmware.Http.Board.{Board, Env}
use roman_firmware.Http.Json.{json_get_string}
use roman_firmware.Http.Provisioning.{clear_key}
use roman_firmware.Http.Response.{Conn}
use roman_firmware.Http.Routing.{request_line, request_body}
use roman_firmware.Http.Connection.{Err, err_ok, Server, entry}
use roman_firmware.Http.Callbacks.{IsWellFormed}
use roman_firmware.Http.Table.{
  Step, recv, sent, failed, accept, Reach, here, next, Reach-IsWellFormed,
}
use roman_firmware.Http.Unchanged.{flash_of}
use roman_firmware.Http.Asking.{Asks, Complete, StepAsks, Step-Asked}

-- The request `buf` shows the secret key of the record in `flash`, or is the maintenance endpoint's
-- erase.
abbrev pub Unlocks : Crypto → Bytes → Bytes → Type 0
Unlocks c flash buf =
    (path : Bytes) × (request_line (c_str buf) ≡ some (codes "POST", path))
    × ((path ≡ codes "/clear")
          × ((key : Bytes) × (given : Bytes) × (f : Fields) × (clear_key (request_body (c_str buf))
                ≡ some key)
              × (b64_decode key 64 ≡ some given)
              × (stored_fields c flash ≡ some f)
              × Presents given f.sk)
        ⊎ (path ≡ codes "/debug")
          × (json_get_string (request_body (c_str buf)) (codes "action") 16 ≡ some (codes "clear")))

-- On a board whose flag is set, a request that may change flash unlocks it.
Asks-Unlocks :
    (e : Env) (buf : Bytes) (b : Board)
    → storage_writen (flash_of b) ≡ true
    → Asks e buf b
    → Unlocks e.crypto (flash_of b) buf
Asks-Unlocks e buf b set (method, path, line, (post, inl (at, unset))) = cc
Asks-Unlocks e buf b set (method, path, line, (post, inr cause)) =
    (path, line ∙ ap (λ m. some (m, path)) post, cause)

-- A segment `o` for connection `i` completes a request that unlocks `flash`.
abbrev pub Unlocked : Env → ℕ → Option Bytes → Err → Server → Bytes → Type 0
Unlocked e i o err s flash =
    (st : Conn) × (p : Bytes) × (o ≡ some p)
    × (err ≡ err_ok)
    × (entry i s ≡ some st)
    × (st.done ≡ false)
    × Complete st.content_length (st.buf ++ p)
    × Unlocks e.crypto flash (st.buf ++ p)

-- The step is such a segment.
abbrev pub StepUnlocks : {c : Crypto} {s t : Server} → Bytes → Step c s t → Type 0
StepUnlocks flash (recv e accepted none p err s at_c hl) = ⊥
StepUnlocks flash (recv e accepted (some i) p err s at_c hl) = Unlocked e i p err s flash
StepUnlocks flash (sent arg s) = ⊥
StepUnlocks flash (failed e arg s) = ⊥
StepUnlocks flash (accept e allocated pcb s) = ⊥

-- One of the callbacks that were made is such a segment, and flash was still as given before it.
abbrev pub Opened : {c : Crypto} {s t : Server} → Bytes → Reach c s t → Type 0
Opened flash here = ⊥
Opened flash (next {t = u} reach step) =
    Opened flash reach ⊎ (flash_of u.board ≡ flash) × StepUnlocks flash step

StepAsks-Unlocks :
    {c : Crypto} {s t : Server} (flash : Bytes) (step : Step c s t)
    → flash_of s.board ≡ flash
    → storage_writen flash ≡ true
    → StepAsks step
    → StepUnlocks flash step
StepAsks-Unlocks flash (recv e accepted (some i) o err s at_c hl) same set
      (st, p, segment, good, at, open_, complete, asks) =
    (
      st,
      p,
      segment,
      good,
      at,
      open_,
      complete,
      subst (λ f. Unlocks e.crypto f (st.buf ++ p)) same
          (Asks-Unlocks e (st.buf ++ p) s.board (ap storage_writen same ∙ set) asks),
    )
StepAsks-Unlocks flash (recv e accepted none o err s at_c hl) same set h = absurd h
StepAsks-Unlocks flash (sent arg s) same set h = absurd h
StepAsks-Unlocks flash (failed e arg s) same set h = absurd h
StepAsks-Unlocks flash (accept e allocated pcb s) same set h = absurd h

-- On a board whose flag is set, over every sequence of lwIP's callbacks and whatever clients send:
-- flash is at the end as it was, or one of these callbacks, before which flash was still so, received
-- the segment that completed a POST /clear that shows the stored secret key, or a POST /debug with the
-- action clear. The server is well formed to begin with, and TweetNaCl and the flash calls behave as
-- assumed.
pub Reach-Locked :
    (c : Crypto) (s t : Server) (run : Reach c s t)
    → CryptoLaws c
    → IsWellFormed c s
    → storage_writen (flash_of s.board) ≡ true
    → (flash_of t.board ≡ flash_of s.board) ⊎ Opened (flash_of s.board) run
Reach-Locked c s t here laws w set = inl refl
Reach-Locked c s t (next {t = u} reach step) laws w set =
    elim (Reach-Locked c s u reach laws w set) [
      | inr opened ↦ inr (inl opened)
      | inl same ↦ elim (Step-Asked c u t step laws (Reach-IsWellFormed c s u laws w reach).sound) [
        | inl stays ↦ inl (stays ∙ same)
        | inr asks ↦ inr (inr (same, StepAsks-Unlocks (flash_of s.board) step same set asks))
      ]
    ]
