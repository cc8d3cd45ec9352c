-- ===== src/Http/Asking.antt =====
-- What each of lwIP's callbacks does to flash: nothing, or what a request asks for.
use roman_firmware.Prelude.{
  ℕ, ◌+◌, ◌-◌, ◌≡◌, refl, sym, subst, ◌⊎◌, inl, inr, Bool, false, Option, none, some, Bytes, length,
  ◌++◌, leb, Bool-cases, Option-cases,
}
use roman_firmware.CString.{ℤ, strstr}
use roman_firmware.Record.{c_str}
use roman_firmware.Storage.{Crypto}
use roman_firmware.Storage.Assumptions.{CryptoLaws, HardwareLaws}
use roman_firmware.Keystore.Invariant.{IsSound}
use roman_firmware.Http.Board.{Board, Env}
use roman_firmware.Http.Response.{http_buf_size, Conn}
use roman_firmware.Http.Routing.{blank_line, request_line, request_body}
use roman_firmware.Http.Connection.{
  Err, err_ok, err_val, err_mem, err_other, Server, entry, in_use, store_conn, http_close_conn,
  respond, process, known_length, incomplete, received, recv_data, recv_conn, http_recv_cb,
  sent_conn, http_sent_cb, http_err_cb, first_free, accept_slot, http_accept_cb,
}
use roman_firmware.Http.Flash.{Cause, process-Cause}
use roman_firmware.Http.Table.{Step, recv, sent, failed, accept}
use roman_firmware.Http.Unchanged.{flash_of}

-- The request `buf` may change the board's flash.
abbrev pub Asks : Env → Bytes → Board → Type 0
Asks e buf b =
    (method : Bytes) × (path : Bytes) × (request_line (c_str buf) ≡ some (method, path))
    × Cause e method path (request_body (c_str buf)) b

-- The request is complete: the header has ended, and the body is there as far as its length is known.
abbrev pub Complete : ℤ → Bytes → Type 0
Complete content_length buf =
    (head : Bytes) × (sep : Bytes) × (strstr blank_line (c_str buf) ≡ some (head, sep))
    × (incomplete (known_length content_length (c_str buf)) (length buf - (length head + 4))
        ≡ false)

module _ (e : Env) (laws : CryptoLaws e.crypto) (hl : HardwareLaws e.hardware) (accepted : Bool)
    (i : ℕ) where
  process-Asks :
      (st : Conn) (s : Server)
      → IsSound e.crypto s.board.keystore
      → (flash_of (process e accepted i st s).1.board ≡ flash_of s.board) ⊎ Asks e st.buf s.board
  unfolding process respond
  process-Asks st s sound =
      process-Cause e (in_use s.http_states) st.buf st.content_length s.board laws hl sound

  received-Asks :
      (st : Conn) (data_len : ℕ) (s : Server)
      → IsSound e.crypto s.board.keystore
      → (flash_of (received e accepted i st data_len s).1.board ≡ flash_of s.board)
        ⊎ Complete st.content_length st.buf × Asks e st.buf s.board
  unfolding received
  received-Asks st0 data_len s0 sound =
      let text = c_str st0.buf in
      let st : Conn = record st0 { content_length = known_length st0.content_length text } in
      elim (Option-cases (strstr blank_line text)) [
        | inl none_yet ↦ inl (rw (none_yet, received) refl)
        | inr ((head, sep), found) ↦
            elim (Bool-cases (
              incomplete (known_length st0.content_length text)
                (length st0.buf - (length head + 4)))) [
                  | inl waits ↦ inl (rw (found, waits, received) refl)
                  | inr whole ↦
                      rw (found, whole, received)
                        (elim (process-Asks st (store_conn i (some st) s0) sound) [
                          | inl same ↦ inl same
                          | inr asks ↦ inr ((head, sep, refl, whole), asks)
                        ])
                ]
      ]

  data-Asks :
      (st : Conn) (p : Bytes) (err : Err) (s : Server)
      → IsSound e.crypto s.board.keystore
      → (flash_of (recv_data e accepted i st p err s).1.1.board ≡ flash_of s.board)
        ⊎ (err ≡ err_ok) × Complete st.content_length (st.buf ++ p) × Asks e (st.buf ++ p) s.board
  unfolding recv_data respond
  data-Asks st p err_ok s sound = elim (Bool-cases (leb http_buf_size (length st.buf + length p))) [
    | inl large ↦ inl (rw (large, recv_data) refl)
    | inr fits ↦
        rw (fits, recv_data)
          (elim (received-Asks (record st { buf = st.buf ++ p }) (length p) s sound) [
            | inl same ↦ inl same
            | inr (complete, asks) ↦ inr (refl, complete, asks)
          ])
  ]
  data-Asks st p err_val s sound = inl refl
  data-Asks st p err_mem s sound = inl refl
  data-Asks st p (err_other n) s sound = inl refl

-- A segment `o` for connection `i` completes a request that may change flash.
abbrev pub Asked : Env → ℕ → Option Bytes → Err → Server → Type 0
Asked e i o err s =
    (st : Conn) × (p : Bytes) × (o ≡ some p)
    × (err ≡ err_ok)
    × (entry i s ≡ some st)
    × (st.done ≡ false)
    × Complete st.content_length (st.buf ++ p)
    × Asks e (st.buf ++ p) s.board

-- The step is such a segment.
abbrev pub StepAsks : {c : Crypto} {s t : Server} → Step c s t → Type 0
StepAsks (recv e accepted none p err s at_c hl) = ⊥
StepAsks (recv e accepted (some i) p err s at_c hl) = Asked e i p err s
StepAsks (sent arg s) = ⊥
StepAsks (failed e arg s) = ⊥
StepAsks (accept e allocated pcb s) = ⊥

abbrev pub Stays : Server → Server → Type 0
Stays s t = flash_of t.board ≡ flash_of s.board

conn-Asked :
    (e : Env) (laws : CryptoLaws e.crypto) (hl : HardwareLaws e.hardware) (accepted : Bool) (i : ℕ)
    (o : Option Conn) (p : Option Bytes) (err : Err) (s : Server)
    → IsSound e.crypto s.board.keystore
    → entry i s ≡ o
    → Stays s (recv_conn e accepted i o p err s).1.1 ⊎ Asked e i p err s
unfolding recv_conn http_close_conn
conn-Asked e laws hl accepted i none p err s sound at = inl refl
conn-Asked e laws hl accepted i (some st) none err s sound at = inl refl
conn-Asked e laws hl accepted i (some st) (some p) err s sound at = elim (Bool-cases st.done) [
  | inl over ↦ inl (simp (over, recv_conn))
  | inr open_ ↦
      simp (open_, recv_conn)
        (elim (data-Asks e laws hl accepted i st p err s sound) [
          | inl same ↦ inl same
          | inr (good, complete, asks) ↦ inr (st, p, refl, good, at, open_, complete, asks)
        ])
]

sent-Stays : (i : ℕ) (o : Option Conn) (s : Server) → Stays s (sent_conn i o s).1
unfolding sent_conn http_close_conn
sent-Stays i none s = refl
sent-Stays i (some st) s = elim (Bool-cases st.sent) [
  | inl gone ↦ rw (gone, sent_conn) refl
  | inr not_yet ↦ rw (not_yet, sent_conn) refl
]

slot-Stays : (e : Env) (pcb : ℕ) (o : Option ℕ) (s : Server) → Stays s (accept_slot e pcb o s).1.1
unfolding accept_slot
slot-Stays e pcb none s = refl
slot-Stays e pcb (some i) s = refl

pub Step-Asked :
    (c : Crypto) (s t : Server) (step : Step c s t)
    → CryptoLaws c
    → IsSound c s.board.keystore
    → Stays s t ⊎ StepAsks step
unfolding http_recv_cb http_sent_cb http_err_cb http_accept_cb
Step-Asked c s t (recv e accepted none p err _ at_c hl) laws sound = inl refl
Step-Asked c s t (recv e accepted (some i) p err _ at_c hl) laws sound =
    conn-Asked e (subst CryptoLaws (sym at_c) laws) hl accepted i (entry i s) p err s
      (subst (λ k. IsSound k s.board.keystore) (sym at_c) sound) refl
Step-Asked c s t (sent none _) laws sound = inl refl
Step-Asked c s t (sent (some i) _) laws sound = inl (sent-Stays i (entry i s) s)
Step-Asked c s t (failed e none _) laws sound = inl refl
Step-Asked c s t (failed e (some i) _) laws sound = inl refl
Step-Asked c s t (accept e allocated none _) laws sound = inl refl
Step-Asked c s t (accept e allocated (some pcb) _) laws sound = elim (Bool-cases allocated) [
  | inl there ↦ rw (there, http_accept_cb) (inl (slot-Stays e pcb (first_free s.http_states) s))
  | inr full ↦ rw (full, http_accept_cb) (inl refl)
]
