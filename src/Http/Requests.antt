-- ===== src/Http/Requests.antt =====
-- Every request keeps the keystore's invariant.
use roman_firmware.Prelude.{ℕ, Option, none, some, Bytes}
use roman_firmware.CString.{ℤ}
use roman_firmware.Record.{c_str}
use roman_firmware.Storage.Assumptions.{CryptoLaws, HardwareLaws}
use roman_firmware.Keystore.Invariant.{IsSound}
use roman_firmware.Http.Board.{Board, Env}
use roman_firmware.Http.Routing.{
  request_line, request_body, process_line, handle_get, handle_post, dispatch, http_process_request,
}
use roman_firmware.Http.Keeps.{
  Keeps, Keeps-404, Keeps-sign, Keeps-write, Keeps-clear, Keeps-info, Keeps-debug,
}
use roman_firmware.Http.Routing.Cases.{counted, handle_get-each, handle_post-each, dispatch-each}

module _ (e : Env) (laws : CryptoLaws e.crypto) (hl : HardwareLaws e.hardware) where
  Keeps-get :
      (b : Board) → IsSound e.crypto b.keystore → (path : Bytes) → Keeps e (handle_get e path b)
  Keeps-get b s path =
      handle_get-each e (Keeps e) path b (λ r. s) (Keeps-info e laws hl b s)
        (Keeps-404 e laws hl b s)

  Keeps-post :
      (conns : ℕ) (b : Board)
      → IsSound e.crypto b.keystore
      → (path body : Bytes) (n : ℤ) → Keeps e (handle_post e conns path body n b)
  Keeps-post conns b s path body n =
      handle_post-each e (Keeps e) conns path body n b (λ at. Keeps-sign e laws hl b s body)
        (λ at. Keeps-write e laws hl b s body n) (λ at. Keeps-clear e laws hl b s body n)
        (λ at. Keeps-debug e laws hl conns b s body n) (Keeps-404 e laws hl b s)

  Keeps-dispatch :
      (conns : ℕ) (b : Board)
      → IsSound e.crypto b.keystore
      → (method path body : Bytes) (n : ℤ) → Keeps e (dispatch e conns method path body n b)
  Keeps-dispatch conns b s method path body n =
      dispatch-each e (Keeps e) conns method path body n b (λ r. s) (Keeps-get (counted b) s path)
        (λ at. Keeps-post conns (counted b) s path body n) (Keeps-404 e laws hl (counted b) s)

  Keeps-line :
      (conns : ℕ) (b : Board)
      → IsSound e.crypto b.keystore
      → (line : Option (Bytes × Bytes)) (body : Bytes) (n : ℤ)
      → Keeps e (process_line e conns line body n b)
  unfolding process_line
  Keeps-line conns b s none body n = Keeps-404 e laws hl b s
  Keeps-line conns b s (some (method, path)) body n = Keeps-dispatch conns b s method path body n

-- Whatever the request says, and however the flash calls end, the cache goes on agreeing with flash,
-- and a record that can be read has its flag set.
pub process-IsSound :
    (e : Env) (conns : ℕ) (buf : Bytes) (n : ℤ) (b : Board)
    → CryptoLaws e.crypto
    → HardwareLaws e.hardware
    → IsSound e.crypto b.keystore
    → IsSound e.crypto (http_process_request e conns buf n b).1.keystore
unfolding http_process_request
process-IsSound e conns buf n b laws hl s =
    Keeps-line e laws hl conns b s (request_line (c_str buf)) (request_body (c_str buf)) n
