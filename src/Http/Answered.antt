-- ===== src/Http/Answered.antt =====
-- Every request that is complete is answered.
use roman_firmware.Prelude.{
  ℕ, ◌+◌, ◌%◌, ◌^◌, ◌≤◌, ◌<◌, ◌≡◌, refl, true, false, ◌||◌, Option, none, some, List, [], ◌∷◌, ◌++◌,
  arith, Bytes, codes, length, length-append, take-short, get_or-set_self, ltb, leb, leb-false→lt,
  Bool-cases, Option-cases, inl, inr, bytes_eq,
}
use roman_firmware.Base64.{is_empty}
use roman_firmware.CString.{ℤ, concat}
use roman_firmware.CString.Search.{length-snprintf}
use roman_firmware.Record.{c_str}
use roman_firmware.Http.Board.{Board, Env}
use roman_firmware.Http.Response.{
  Call, tcp_write, Conn, Reply, http_buf_size, header, http_send_response,
}
use roman_firmware.Http.Provisioning.{over}
use roman_firmware.Http.Debug.{
  finish_snapshot, handle_info, debug_snapshot, debug_clear, debug_action, handle_debug,
}
use roman_firmware.Http.Routing.{
  request_line, request_body, http_send_404, handle_get, handle_post, dispatch,
  http_process_request,
}
use roman_firmware.Http.Routing.Cases.{handle_post-each}
use roman_firmware.Http.Connection.{Server, entry, in_use, respond, process}
use roman_firmware.Http.Fits.{Fits, length-header, sign-Fits, write-Fits, clear-Fits}

length-concat :
    (front middle back : Bytes)
    → length (concat (front ∷ middle ∷ back ∷ [])) ≡ length front + (length middle + length back)
unfolding concat
length-concat front middle back = omega (
  arith,
  length-append front (middle ++ (back ++ [])),
  length-append middle (back ++ []),
  length-append back [],
)

module _ (e : Env) where
  finish-Fits : (text : Bytes) (b : Board) → Fits (finish_snapshot text b)
  unfolding finish_snapshot
  finish-Fits text b = elim (Bool-cases (leb 1280 (length text))) [
    | inl long ↦ rw (long, finish_snapshot) (omega arith)
    | inr fits ↦ rw (fits, finish_snapshot) (omega (arith, leb-false→lt 1280 (length text) fits))
  ]

  snapshot-Fits : (conns : ℕ) (b : Board) → Fits (debug_snapshot e conns b)
  unfolding debug_snapshot
  snapshot-Fits conns b = finish-Fits _ _

  debug_clear-Fits : (b : Board) → Fits (debug_clear e b)
  unfolding debug_clear
  debug_clear-Fits b = ground arith

  action-Fits :
      (conns : ℕ) (action : Option Bytes) (b : Board) → Fits (debug_action e conns action b)
  unfolding debug_action
  action-Fits conns none b = snapshot-Fits conns b
  action-Fits conns (some action) b =
      elim (Bool-cases (is_empty action || bytes_eq action (codes "snapshot"))) [
        | inl shown ↦ rw (shown, debug_action) (snapshot-Fits conns b)
        | inr more ↦ elim (Bool-cases (bytes_eq action (codes "clear"))) [
          | inl clear ↦ rw (more, clear, debug_action) (debug_clear-Fits b)
          | inr other ↦ elim (Bool-cases (bytes_eq action (codes "reset"))) [
            | inl reset ↦ rw (more, other, reset, debug_action) (omega arith)
            | inr unknown ↦ rw (more, other, unknown, debug_action) (omega arith)
          ]
        ]
      ]

  debug-Fits : (conns : ℕ) (body : Bytes) (n : ℤ) (b : Board) → Fits (handle_debug e conns body n b)
  unfolding handle_debug
  debug-Fits conns body n b = elim (Bool-cases (over 256 n)) [
    | inl large ↦ rw (large, handle_debug) (omega arith)
    | inr fits ↦ elim (Bool-cases (is_empty body)) [
      | inl nothing ↦ rw (fits, nothing, handle_debug) (snapshot-Fits conns b)
      | inr something ↦ rw (fits, something, handle_debug) (action-Fits conns _ b)
    ]
  ]

  info-Fits : (b : Board) → Fits (handle_info e b)
  unfolding handle_info
  info-Fits b = omega (arith, length-snprintf 319 _)

  missing-Fits : (b : Board) → Fits (http_send_404 b)
  unfolding http_send_404
  missing-Fits b = omega arith

  get-Fits : (path : Bytes) (b : Board) → length e.version ≤ 64 → Fits (handle_get e path b)
  unfolding handle_get
  get-Fits path b h = elim (Bool-cases (bytes_eq path (codes "/"))) [
    | inl index ↦ rw (index, handle_get) (omega (arith, h, length-concat _ e.version _))
    | inr p1 ↦ elim (Bool-cases (bytes_eq path (codes "/health"))) [
      | inl health ↦ rw (p1, health, handle_get) (omega arith)
      | inr p2 ↦ elim (Bool-cases (bytes_eq path (codes "/info"))) [
        | inl info ↦ rw (p1, p2, info, handle_get) (info-Fits b)
        | inr p3 ↦ elim (Bool-cases (bytes_eq path (codes "/sign"))) [
          | inl sign ↦ rw (p1, p2, p3, sign, handle_get) (omega arith)
          | inr p4 ↦ rw (p1, p2, p3, p4, handle_get) (missing-Fits b)
        ]
      ]
    ]
  ]

  post-Fits :
      (conns : ℕ) (path body : Bytes) (n : ℤ) (b : Board) → Fits (handle_post e conns path body n b)
  post-Fits conns path body n b =
      handle_post-each e Fits conns path body n b (λ at. sign-Fits e body b)
        (λ at. write-Fits e body n b) (λ at. clear-Fits e body n b)
        (λ at. debug-Fits conns body n b) (missing-Fits b)

  dispatch-Fits :
      (conns : ℕ) (method path body : Bytes) (n : ℤ) (b : Board)
      → length e.version ≤ 64
      → Fits (dispatch e conns method path body n b)
  unfolding dispatch
  dispatch-Fits conns method path body n b h =
      elim (Bool-cases (bytes_eq method (codes "OPTIONS"))) [
        | inl options ↦ rw (options, dispatch) (omega arith)
        | inr m1 ↦ elim (Bool-cases (bytes_eq method (codes "GET"))) [
          | inl get ↦ rw (m1, get, dispatch) (get-Fits path _ h)
          | inr m2 ↦ elim (Bool-cases (bytes_eq method (codes "POST"))) [
            | inl post ↦ rw (m1, m2, post, dispatch) (post-Fits conns path body n _)
            | inr m3 ↦ rw (m1, m2, m3, dispatch) (missing-Fits _)
          ]
        ]
      ]

  process-Fits :
      (conns : ℕ) (buf : Bytes) (n : ℤ) (b : Board)
      → length e.version ≤ 64
      → Fits (http_process_request e conns buf n b)
  unfolding http_process_request
  process-Fits conns buf n b h = elim (Option-cases (request_line (c_str buf))) [
    | inl malformed ↦ rw malformed (missing-Fits b)
    | inr ((method, path), found) ↦
        rw found (dispatch-Fits conns method path (request_body (c_str buf)) n b h)
  ]

not_over : (head body : ℕ) → head ≤ 300 → body ≤ 1279 → ltb http_buf_size (head + body) ≡ false
not_over head body h k = ground arith

-- The whole answer is written, and the connection is done.
send_lem :
    (status : ℕ) (body : Bytes) (st : Conn)
    → length body ≤ 1279
    → (let (calls, st') = http_send_response true status body st in
        (calls ≡ tcp_write st.pcb (header status (length body) ++ body) ∷ [])
        × (st'.sent ≡ true)
        × (st'.done ≡ true))
unfolding http_send_response
send_lem status body st h =
    let same : length body % 2 ^ 16 ≡ length body = omega arith in
    let fits : ltb http_buf_size (length (header status (length body)) + length body) ≡ false =
      not_over _ (length body) (length-header status (length body)) h in
    rw (same, take-short (length body) body (omega arith), fits) (refl, refl, refl)

-- One write, of the header and the whole body of `r`, after which entry `i` is done.
abbrev pub Answered : ℕ → ℕ → Reply → List Call × Server → Type 0
Answered pcb i r (calls, s) =
    (calls ≡ tcp_write pcb (header r.status (length r.body) ++ r.body) ∷ [])
    × (st : Conn) × (entry i s ≡ some st)
    × (st.sent ≡ true)
    × (st.done ≡ true)

respond-Answered :
    (i : ℕ) (st : Conn) (r : Reply) (s : Server)
    → i < length s.http_states
    → length r.body ≤ 1279
    → Answered st.pcb i r (respond true i st r s)
unfolding respond
respond-Answered i st r s inside h = elim (Bool-cases r.reset) [
  | inl armed ↦
      let (calls, sent, done) =
        send_lem r.status r.body (record st { reset_after_send = true }) h in
      rw (armed, respond)
        (calls, _, get_or-set_self s.http_states i (some _) none inside, sent, done)
  | inr plain ↦
      let (calls, sent, done) = send_lem r.status r.body st h in
      rw (plain, respond)
        (calls, _, get_or-set_self s.http_states i (some _) none inside, sent, done)
]

-- A complete request, whatever it says, is answered by one write that tcp_write accepts: the header,
-- with the length of the body, and the body in full; the connection then counts as sent and done. The
-- version text has at most 64 bytes, and the connection has an entry.
pub process-Answered :
    (e : Env) (i : ℕ) (st : Conn) (s : Server)
    → length e.version ≤ 64
    → i < length s.http_states
    → (let conns = in_use s.http_states in
        let (r, board) = http_process_request e conns st.buf st.content_length s.board in
        Answered st.pcb i r (process e true i st s))
unfolding process
process-Answered e i st s h inside =
    let answer = http_process_request e (in_use s.http_states) st.buf st.content_length s.board in
    respond-Answered i st answer.0 (record s { board = answer.1 }) inside
      (process-Fits e (in_use s.http_states) st.buf st.content_length s.board h)
