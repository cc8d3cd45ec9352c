-- ===== src/Http/Callbacks.antt =====
-- Each lwIP callback keeps the connection table well formed.
use roman_firmware.Prelude.{
  ℕ, zero, suc, ◌+◌, ◌<◌, ◌≡◌, refl, sym, ◌∙◌, subst, inl, inr, Bool, true, false, Option, none,
  some, List, [], ◌∷◌, ◌++◌, ◌%◌, ◌^◌, ◌-◌, arith, Bytes, length, length-set, length-append,
  length-write_at, get_or, set, write_at, take, ltb, leb, leb-false→lt, Bool-cases, Option-cases,
}
use roman_firmware.CString.{strstr}
use roman_firmware.Record.{c_str}
use roman_firmware.Storage.{Crypto}
use roman_firmware.Storage.Assumptions.{CryptoLaws, HardwareLaws}
use roman_firmware.Keystore.Invariant.{IsSound}
use roman_firmware.Http.Board.{Board, Env}
use roman_firmware.Http.Response.{Conn, Reply, http_buf_size, header, http_send_response}
use roman_firmware.Http.Provisioning.{too_large}
use roman_firmware.Http.Routing.{blank_line, http_process_request}
use roman_firmware.Http.Requests.{process-IsSound}
use roman_firmware.Http.Connection.{
  Err, err_ok, err_val, err_mem, err_other, Server, entry, store_conn, in_use, http_close_conn,
  known_length, incomplete, respond, process, received, recv_data, recv_conn, sent_conn, fresh,
  accept_slot,
}

-- A connection's request and its NUL fit in the buffer, and `sent` and `done` go together.
abbrev pub IsLive : Option Conn → Type 0
IsLive none = Unit
IsLive (some st) = (length st.buf < http_buf_size) × (st.sent ≡ st.done)

-- A table without connections.
pub no_entries : (i : ℕ) → IsLive (get_or (none ∷ none ∷ none ∷ []) i none)
no_entries zero = tt
no_entries (suc zero) = tt
no_entries (suc (suc zero)) = tt
no_entries (suc (suc (suc i))) = tt

pub record IsWellFormed (c : Crypto) (s : Server) : Type 0 where
  pub slots : length s.http_states ≡ 3
  pub live : (i : ℕ) → IsLive (entry i s)
  pub sound : IsSound c s.board.keystore

get_or-set-IsLive :
    (states : List (Option Conn)) (i : ℕ) (o : Option Conn)
    → ((j : ℕ) → IsLive (get_or states j none))
    → IsLive o
    → (j : ℕ) → IsLive (get_or (set states i o) j none)
get_or-set-IsLive [] i o all h j = tt
get_or-set-IsLive (x ∷ states) zero o all h zero = h
get_or-set-IsLive (x ∷ states) zero o all h (suc j) = all (suc j)
get_or-set-IsLive (x ∷ states) (suc i) o all h zero = all zero
get_or-set-IsLive (x ∷ states) (suc i) o all h (suc j) =
    get_or-set-IsLive states i o (λ k. all (suc k)) h j

module _ (c : Crypto) where
  pub store-IsWellFormed :
      (i : ℕ) (o : Option Conn) (s : Server)
      → IsWellFormed c s
      → IsLive o
      → IsWellFormed c (store_conn i o s)
  store-IsWellFormed i o s w h = record {
    slots = length-set s.http_states i o ∙ w.slots;
    live = get_or-set-IsLive s.http_states i o w.live h;
    sound = w.sound;
  }

  pub board-IsWellFormed :
      (b : Board) (s : Server)
      → IsWellFormed c s
      → IsSound c b.keystore
      → IsWellFormed c (record s { board = b })
  board-IsWellFormed b s w h = record { slots = w.slots; live = w.live; sound = h }

  -- A response leaves a live connection, if none has gone out before.
  send-IsLive :
      (accepted : Bool) (status : ℕ) (body : Bytes) (st : Conn)
      → length st.buf < http_buf_size
      → st.sent ≡ st.done
      → st.done ≡ false
      → IsLive (some (http_send_response accepted status body st).1)
  unfolding http_send_response
  send-IsLive accepted status body st h same open_ =
      let body_len = length body % 2 ^ 16 in
      let head = header status body_len in
      let buf1 = write_at 0 (head ++ 0 ∷ []) st.buf in
      let one = length-write_at 0 (head ++ 0 ∷ []) st.buf in
      let two = length-write_at (length head) (take body_len body) buf1 in
      elim (Bool-cases (ltb http_buf_size (length head + body_len))) [
        | inl long ↦ rw (long, http_send_response) (omega (arith, one), same)
        | inr fits ↦ elim (Bool-cases accepted) [
          | inr failed ↦ rw (fits, failed, http_send_response) (omega (arith, one, two), sym open_)
          | inl written ↦ rw (fits, written, http_send_response) (omega (arith, one, two), refl)
        ]
      ]

  respond-IsWellFormed :
      (accepted : Bool) (i : ℕ) (st : Conn) (r : Reply) (s : Server)
      → IsWellFormed c s
      → length st.buf < http_buf_size
      → st.sent ≡ st.done
      → st.done ≡ false
      → IsWellFormed c (respond accepted i st r s).1
  unfolding respond
  respond-IsWellFormed accepted i st r s w h same open_ = elim (Bool-cases r.reset) [
    | inl armed ↦ rw armed (
        store-IsWellFormed i _ s w (
          send-IsLive accepted r.status r.body (record st { reset_after_send = true }) h same
            open_))
    | inr plain ↦
        rw plain (store-IsWellFormed i _ s w (send-IsLive accepted r.status r.body st h same open_))
  ]

  module _ (e : Env) (at_c : e.crypto ≡ c) (laws : CryptoLaws c) (hl : HardwareLaws e.hardware)
      (accepted : Bool) (i : ℕ) where
    process-IsWellFormed :
        (st : Conn) (s : Server)
        → IsWellFormed c s
        → length st.buf < http_buf_size
        → st.sent ≡ st.done
        → st.done ≡ false
        → IsWellFormed c (process e accepted i st s).1
    unfolding process
    process-IsWellFormed st s w h same open_ =
        let answer =
          http_process_request e (in_use s.http_states) st.buf st.content_length s.board in
        let sound : IsSound e.crypto answer.1.keystore =
          process-IsSound e (in_use s.http_states) st.buf st.content_length s.board
            (subst CryptoLaws (sym at_c) laws) hl
            (subst (λ k. IsSound k s.board.keystore) (sym at_c) w.sound) in
        respond-IsWellFormed accepted i st answer.0 (record s { board = answer.1 })
          (board-IsWellFormed answer.1 s w (subst (λ k. IsSound k answer.1.keystore) at_c sound)) h
          same open_

    received-IsWellFormed :
        (st : Conn) (data_len : ℕ) (s : Server)
        → IsWellFormed c s
        → length st.buf < http_buf_size
        → st.sent ≡ st.done
        → st.done ≡ false
        → IsWellFormed c (received e accepted i st data_len s).1
    unfolding received
    received-IsWellFormed st0 data_len s0 w h same open_ =
        let text = c_str st0.buf in
        let st : Conn = record st0 { content_length = known_length st0.content_length text } in
        let w' = store-IsWellFormed i (some st) s0 w (h, same) in
        elim (Option-cases (strstr blank_line text)) [
          | inl none_yet ↦ rw (none_yet, received) w'
          | inr ((head, sep), found) ↦
              elim (Bool-cases (
                incomplete (known_length st0.content_length text)
                  (length st0.buf - (length head + 4)))) [
                    | inl waits ↦ rw (found, waits, received) w'
                    | inr whole ↦
                        rw (found, whole, received)
                          (process-IsWellFormed st (store_conn i (some st) s0) w' h same open_)
                  ]
        ]

    data-IsWellFormed :
        (st : Conn) (p : Bytes) (err : Err) (s : Server)
        → IsWellFormed c s
        → length st.buf < http_buf_size
        → st.sent ≡ st.done
        → st.done ≡ false
        → IsWellFormed c (recv_data e accepted i st p err s).1.1
    unfolding recv_data
    data-IsWellFormed st p err_ok s w h same open_ =
        elim (Bool-cases (leb http_buf_size (length st.buf + length p))) [
          | inl large ↦
              rw (large, recv_data)
                (respond-IsWellFormed accepted i st _ (record s { board = too_large s.board })
                  (board-IsWellFormed (too_large s.board) s w w.sound) h same open_)
          | inr fits ↦
              rw (fits, recv_data)
                (received-IsWellFormed (record st { buf = st.buf ++ p }) (length p) s w
                  (omega (arith, length-append st.buf p, leb-false→lt http_buf_size _ fits)) same
                  open_)
        ]
    data-IsWellFormed st p err_val s w h same open_ = w
    data-IsWellFormed st p err_mem s w h same open_ = w
    data-IsWellFormed st p (err_other n) s w h same open_ = w

    pub conn-IsWellFormed :
        (o : Option Conn) (p : Option Bytes) (err : Err) (s : Server)
        → IsWellFormed c s
        → IsLive o
        → IsWellFormed c (recv_conn e accepted i o p err s).1.1
    unfolding recv_conn http_close_conn
    conn-IsWellFormed none p err s w l = w
    conn-IsWellFormed (some st) none err s w l = store-IsWellFormed i none s w tt
    conn-IsWellFormed (some st) (some p) err s w (h, same) = elim (Bool-cases st.done) [
      | inl over_ ↦ simp (over_, recv_conn) w
      | inr open_ ↦ simp (open_, recv_conn) (data-IsWellFormed st p err s w h same open_)
    ]

  pub sent-IsWellFormed :
      (i : ℕ) (o : Option Conn) (s : Server) → IsWellFormed c s → IsWellFormed c (sent_conn i o s).1
  unfolding sent_conn http_close_conn
  sent-IsWellFormed i none s w = w
  sent-IsWellFormed i (some st) s w = elim (Bool-cases st.sent) [
    | inl gone ↦ simp (gone, sent_conn) (store-IsWellFormed i none s w tt)
    | inr not_yet ↦ simp (not_yet, sent_conn) w
  ]

  pub slot-IsWellFormed :
      (e : Env) (pcb : ℕ) (o : Option ℕ) (s : Server)
      → IsWellFormed c s
      → IsWellFormed c (accept_slot e pcb o s).1.1
  unfolding accept_slot
  slot-IsWellFormed e pcb none s w = w
  slot-IsWellFormed e pcb (some i) s w =
      store-IsWellFormed i (some (fresh pcb)) _ (board-IsWellFormed _ s w w.sound)
        (omega arith, refl)
