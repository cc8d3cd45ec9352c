-- ===== src/Http/Connection.antt =====
-- The lwIP callbacks of http_server.c and the table `http_states`.
--
-- The `void *arg` of a callback is the index of the connection's entry, `none` for NULL: an entry
-- is allocated with its slot and freed with it, and the pcb's argument is set and cleared at the same
-- places. `accepted`, `allocated` are the results of tcp_write and mem_malloc.
use roman_firmware.Prelude.{
  ℕ, suc, ◌+◌, ◌-◌, Bool, true, false, not, Option, none, some, List, [], ◌∷◌, ◌++◌, Bytes, codes,
  length, drop, get_or, set, ltb, leb, if◌then◌else◌,
}
use roman_firmware.CString.{ℤ, pos, negsuc, strchr, strstr, atoi}
use roman_firmware.Led.{led_signal_activity, led_signal_error}
use roman_firmware.Record.{c_str}
use roman_firmware.Http.Board.{Board, Env}
use roman_firmware.Http.Provisioning.{too_large, errors}
use roman_firmware.Http.Response.{
  Call, tcp_recved, tcp_close, watchdog_reboot, Conn, Reply, http_buf_size, http_send_response,
}
use roman_firmware.Http.Routing.{blank_line, http_process_request}

abbrev pub http_max_conn : ℕ
http_max_conn = 3

-- err_t
pub data Err : Type 0 where
  err_ok err_val err_mem : Err
  err_other : ℕ → Err

pub record Server : Type 0 where
  pub board : Board
  pub http_states : List (Option Conn)

abbrev pub entry : ℕ → Server → Option Conn
entry i s = get_or s.http_states i none

abbrev pub store_conn : ℕ → Option Conn → Server → Server
store_conn i o s = record s { http_states = set s.http_states i o }

-- How many entries are in use.
unfoldable pub in_use : List (Option Conn) → ℕ
in_use [] = 0
in_use (none ∷ states) = in_use states
in_use (some st ∷ states) = suc (in_use states)

-- `http_close_conn`: the entry is freed, and the pcb closed.
unfoldable pub http_close_conn : ℕ → Conn → Server → List Call × Server
http_close_conn i st s = (tcp_close st.pcb ∷ [], store_conn i none s)

-- The value of the header field, read from the text behind its colon.
unfoldable pub length_field : Bytes → Option ℤ
length_field cl = elim (strchr b':' cl) [
  | none ↦ none
  | some (name, val) ↦ some (atoi (drop 1 val))
]

-- The search for the field, with the old value where it is found without a colon.
unfoldable pub find_length : ℤ → Bytes → ℤ
find_length old s =
    let read : Bytes → ℤ = λ cl. elim (length_field cl) [ none ↦ old | some n ↦ n ] in
    elim (strstr (codes "Content-Length:") s) [
      | some (head, cl) ↦ read cl
      | none ↦ elim (strstr (codes "content-length:") s) [
        | some (head, cl) ↦ read cl
        | none ↦ pos 0
      ]
    ]

-- if (st->content_length < 0) ...
unfoldable pub known_length : ℤ → Bytes → ℤ
known_length (pos n) s = pos n
known_length (negsuc n) s = find_length (negsuc n) s

-- st->content_length > 0 && body_received < st->content_length
unfoldable pub incomplete : ℤ → ℕ → Bool
incomplete (pos n) received = ltb received n
incomplete (negsuc n) received = false

-- The end of `http_send_response` with the reply of a handler, on entry `i`.
unfoldable pub respond : Bool → ℕ → Conn → Reply → Server → List Call × Server
respond accepted i st0 r s =
    let st = if r.reset then record st0 { reset_after_send = true } else st0 in
    let (calls, st') = http_send_response accepted r.status r.body st in
    (calls, store_conn i (some st') s)

-- The request is complete.
unfoldable pub process : Env → Bool → ℕ → Conn → Server → List Call × Server
process e accepted i st s =
    let (r, board) =
      http_process_request e (in_use s.http_states) st.buf st.content_length s.board in
    respond accepted i st r (record s { board = board })

-- From the copy of `p` on.
unfoldable pub received : Env → Bool → ℕ → Conn → ℕ → Server → List Call × Server
received e accepted i st0 data_len s0 =
    let text = c_str st0.buf in
    let st = record st0 { content_length = known_length st0.content_length text } in
    let s = store_conn i (some st) s0 in
    let wait : List Call × Server = (tcp_recved st.pcb data_len ∷ [], s) in
    elim (strstr blank_line text) [
      | none ↦ wait
      | some (head, sep) ↦
          let (calls, s') = process e accepted i st s in
          if incomplete st.content_length (length st.buf - (length head + 4))
          then wait
          else (tcp_recved st.pcb data_len ∷ calls, s')
    ]

-- A callback with data on a live connection.
unfoldable pub recv_data : Env → Bool → ℕ → Conn → Bytes → Err → Server → Err × (List Call × Server)
recv_data e accepted i st p err_ok s =
    let data_len = length p in
    let (refused, s') =
      respond accepted i st
        (record { status = 413; body = codes "{\"error\":\"Request too large\"}"; reset = false })
        (record s { board = too_large s.board }) in
    if leb http_buf_size (length st.buf + data_len)
    then (err_ok, (tcp_recved st.pcb data_len ∷ refused, s'))
    else (err_ok, received e accepted i (record st { buf = st.buf ++ p }) data_len s)
recv_data e accepted i st p err s = (err, ([], s))

unfoldable pub recv_conn :
    Env → Bool → ℕ → Option Conn → Option Bytes → Err → Server → Err × (List Call × Server)
recv_conn e accepted i none p err s = (err_val, ([], s))
recv_conn e accepted i (some st) none err s = (err_ok, http_close_conn i st s)
recv_conn e accepted i (some st) (some p) err s =
    if st.done then (err_ok, ([], s)) else recv_data e accepted i st p err s

unfoldable pub http_recv_cb :
    Env → Bool → Option ℕ → Option Bytes → Err → Server → Err × (List Call × Server)
unfolding recv_conn
http_recv_cb e accepted none p err s = (err_val, ([], s))
http_recv_cb e accepted (some i) p err s = recv_conn e accepted i (entry i s) p err s

unfoldable pub sent_conn : ℕ → Option Conn → Server → List Call × Server
sent_conn i none s = ([], s)
sent_conn i (some st) s =
    let (calls, s') = http_close_conn i st s in
    if not st.sent
    then ([], s)
    else ((if st.reset_after_send then calls ++ watchdog_reboot ∷ [] else calls), s')

-- It always returns ERR_OK.
unfoldable pub http_sent_cb : Option ℕ → Server → List Call × Server
unfolding sent_conn
http_sent_cb none s = ([], s)
http_sent_cb (some i) s = sent_conn i (entry i s) s

-- lwIP has freed the pcb.
unfoldable pub http_err_cb : Env → Option ℕ → Server → Server
http_err_cb e arg s =
    let b = errors s.board in
    let s' = record s { board = record b { led = led_signal_error e.timer e.now b.led } } in
    elim arg [ none ↦ s' | some i ↦ store_conn i none s' ]

-- The loop for a free slot.
unfoldable pub first_free : List (Option Conn) → Option ℕ
first_free [] = none
first_free (none ∷ states) = some 0
first_free (some st ∷ states) = elim (first_free states) [ none ↦ none | some i ↦ some (i + 1) ]

abbrev pub fresh : ℕ → Conn
fresh pcb = record {
  pcb = pcb;
  buf = [];
  content_length = negsuc 0;
  sent = false;
  done = false;
  reset_after_send = false;
}

unfoldable pub accept_slot : Env → ℕ → Option ℕ → Server → Err × (List Call × Server)
accept_slot e pcb none s = (err_mem, (tcp_close pcb ∷ [], s))
accept_slot e pcb (some i) s =
    let b = s.board in
    (
      err_ok,
      (
        [],
        store_conn i (some (fresh pcb))
            (record s { board = record b { led = led_signal_activity e.timer e.now b.led } }),
      ),
    )

-- `newpcb` is `none` for NULL, or where `err` is not ERR_OK.
unfoldable pub http_accept_cb : Env → Bool → Option ℕ → Server → Err × (List Call × Server)
unfolding accept_slot
http_accept_cb e allocated none s = (err_val, ([], s))
http_accept_cb e allocated (some pcb) s =
    if not allocated
    then (err_mem, (tcp_close pcb ∷ [], s))
    else accept_slot e pcb (first_free s.http_states) s
