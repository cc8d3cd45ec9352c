-- ===== src/Http/Response.antt =====
-- `http_send_response` of http_server.c, and the state of one connection.
--
-- `buf` holds the bytes buf[0 .. req_len) of http_state_t; what lies behind is not read. `pcb`
-- is the number that lwIP knows the connection by.
use roman_firmware.Prelude.{
  ℕ, ◌+◌, ◌%◌, ◌^◌, Bool, true, false, not, List, [], ◌∷◌, ◌++◌, Bytes, codes, length, take,
  write_at, ltb, ◌==◌, if◌then◌else◌,
}
use roman_firmware.CString.{ℤ, decimal}

abbrev pub http_buf_size : ℕ
http_buf_size = 2048

-- http_state_t
pub record Conn : Type 0 where
  pub pcb : ℕ
  pub buf : Bytes
  pub content_length : ℤ
  pub sent : Bool
  pub done : Bool
  pub reset_after_send : Bool

-- The calls that reach lwIP or the SDK.
pub data Call : Type 0 where
  tcp_recved : ℕ → ℕ → Call
  tcp_write : ℕ → Bytes → Call
  tcp_close : ℕ → Call
  watchdog_reboot : Call

-- What a handler hands to `http_send_response`; `reset` arms the reboot of POST /debug.
pub record Reply : Type 0 where
  pub status : ℕ
  pub body : Bytes
  pub reset : Bool

abbrev pub reply : ℕ → Bytes → Reply
reply status body = record { status = status; body = body; reset = false }

unfoldable pub status_text : ℕ → Bytes
status_text status =
    if status == 200
    then codes "OK"
    else if status == 201
    then codes "Created"
    else if status == 400
    then codes "Bad Request"
    else if status == 403
    then codes "Forbidden"
    else if status == 404
    then codes "Not Found"
    else if status == 405
    then codes "Method Not Allowed"
    else if status == 413
    then codes "Request Entity Too Large"
    else if status == 500
    then codes "Internal Server Error"
    else if status == 503
    then codes "Service Unavailable"
    else codes "Unknown"

-- The header printed into `st->buf`; it is shorter than the buffer.
unfoldable pub header : ℕ → ℕ → Bytes
unfolding status_text decimal
header status body_len =
    codes "HTTP/1.1 "
    ++ (decimal status
        ++ (codes " "
            ++ (status_text status
                ++ (codes "\r\nContent-Type: application/json; charset=utf-8\r\nContent-Length: "
                    ++ (decimal body_len
                        ++ codes
                            "\r\nConnection: close\r\nAccess-Control-Allow-Origin: *\r\nAccess-Control-Allow-Methods: GET, POST, OPTIONS\r\nAccess-Control-Allow-Headers: Content-Type\r\n\r\n")))))

-- `accepted` is whether tcp_write returns ERR_OK. The calls made, and the connection.
unfoldable pub http_send_response : Bool → ℕ → Bytes → Conn → List Call × Conn
unfolding header
http_send_response accepted status body st =
    let body_len = length body % 2 ^ 16 in
    let text = take body_len body in
    let head = header status body_len in
    let st1 = record st { buf = write_at 0 (head ++ 0 ∷ []) st.buf } in
    let st2 = record st1 { buf = write_at (length head) text st1.buf; sent = false } in
    if ltb http_buf_size (length head + body_len)
    then (tcp_close st.pcb ∷ [], st1)
    else if not accepted
    then (tcp_write st.pcb (head ++ text) ∷ tcp_close st.pcb ∷ [], st2)
    else (tcp_write st.pcb (head ++ text) ∷ [], record st2 { sent = true; done = true })
