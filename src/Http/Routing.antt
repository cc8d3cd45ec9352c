-- ===== src/Http/Routing.antt =====
-- `http_process_request` of http_server.c: the request line, the body, and the handler for them.
pub mod Cases
use roman_firmware.Prelude.{
  ℕ, Bool, Option, none, some, [], ◌∷◌, Bytes, codes, take, drop, bytes_eq, if◌then◌else◌,
}
use roman_firmware.CString.{ℤ, concat, strchr, strstr}
use roman_firmware.Record.{c_str}
use roman_firmware.Http.Board.{Board, Env, count_up}
use roman_firmware.Http.Response.{Reply, reply}
use roman_firmware.Http.Sign.{handle_sign_post}
use roman_firmware.Http.Provisioning.{handle_write_post, handle_clear_post}
use roman_firmware.Http.Debug.{handle_info, handle_debug}

abbrev pub space : ℕ
space = 32

-- The end of the header section.
abbrev pub blank_line : Bytes
blank_line = codes "\r\n\r\n"

-- `method` and `path`, cut to their buffers; `none` is a malformed request line.
unfoldable pub request_line : Bytes → Option (Bytes × Bytes)
request_line s = elim (strchr space s) [
  | none ↦ none
  | some (method, sp1) ↦ elim (strchr space (drop 1 sp1)) [
    | none ↦ none
    | some (path, sp2) ↦ some (take 15 method, take 127 path)
  ]
]

-- `body`; [] also stands for the NULL of a request with no blank line.
unfoldable pub request_body : Bytes → Bytes
request_body s = elim (strstr blank_line s) [ none ↦ [] | some (head, sep) ↦ drop 4 sep ]

-- http_send_404
unfoldable pub http_send_404 : Board → Reply × Board
http_send_404 b = (
  reply 404 (codes "{\"error\":\"not found\"}"),
  record b { stats = record (b.stats) { not_found = count_up b.stats.not_found } },
)

abbrev pub is : Bytes → Bytes → Bool
is = bytes_eq

unfoldable pub handle_get : Env → Bytes → Board → Reply × Board
handle_get e path b =
    if is path (codes "/")
    then (
      reply 200 (
          concat (
            codes "{\"device\":\"pico2\",\"firmware\":\"roman\",\"version\":\""
            ∷ e.version
            ∷ codes
                "\",\"ip\":\"192.168.7.1\",\"status\":\"running\",\"endpoints\":[\"/health\",\"/sign\",\"/info\",\"/write\",\"/clear\",\"/debug\"]}"
            ∷ [])),
      b,
    )
    else if is path (codes "/health")
    then (reply 200 (codes "{\"status\":\"ok\"}"), b)
    else if is path (codes "/info")
    then handle_info e b
    else if is path (codes "/sign")
    then (
      reply 200 (
          codes
            "{\"endpoint\":\"/sign\",\"method\":\"POST\",\"fields\":[\"challenge\",\"context\",\"timestamp\"]}"),
      b,
    )
    else http_send_404 b

unfoldable pub handle_post : Env → ℕ → Bytes → Bytes → ℤ → Board → Reply × Board
handle_post e conns path body content_length b =
    if is path (codes "/sign")
    then handle_sign_post e body b
    else if is path (codes "/write")
    then handle_write_post e body content_length b
    else if is path (codes "/clear")
    then handle_clear_post e body content_length b
    else if is path (codes "/debug")
    then handle_debug e conns body content_length b
    else http_send_404 b

-- From the copies of method and path on.
unfoldable pub dispatch : Env → ℕ → Bytes → Bytes → Bytes → ℤ → Board → Reply × Board
dispatch e conns method path body content_length b0 =
    let b = record b0 { stats = record (b0.stats) { requests = count_up b0.stats.requests } } in
    if is method (codes "OPTIONS")
    then (reply 200 [], b)
    else if is method (codes "GET")
    then handle_get e path b
    else if is method (codes "POST")
    then handle_post e conns path body content_length b
    else http_send_404 b

unfoldable pub process_line : Env → ℕ → Option (Bytes × Bytes) → Bytes → ℤ → Board → Reply × Board
process_line e conns none body content_length b = http_send_404 b
process_line e conns (some (method, path)) body content_length b =
    dispatch e conns method path body content_length b

-- `buf` is st->buf up to req_len, `conns` how many connections are open.
unfoldable pub http_process_request : Env → ℕ → Bytes → ℤ → Board → Reply × Board
unfolding process_line
http_process_request e conns buf content_length b =
    let s = c_str buf in process_line e conns (request_line s) (request_body s) content_length b
