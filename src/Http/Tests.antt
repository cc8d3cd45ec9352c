-- ===== src/Http/Tests.antt =====
-- Requests to a blank board, to a board that is being provisioned, and to one that has been.
use roman_firmware.Prelude.{
  ℕ, zero, suc, get_or, ◌+◌, ◌≡◌, refl, ◌⊎◌, true, false, none, some, [], ◌∷◌, ◌++◌, arith, Bytes,
  codes, take, replicate, leb,
}
use roman_firmware.Bench.{plain_box, plain_box_laws, good_flash, good_flash_laws, blank}
use roman_firmware.CString.{pos, snprintf, strchr, strstr}
use roman_firmware.Diag
use roman_firmware.Led.{ready, Timer}
use roman_firmware.Record.{c_str}
use roman_firmware.Keystore.{Keystore}
use roman_firmware.Keystore.Invariant.{IsSound, blank-IsSound}
use roman_firmware.Http.Board.{Board, Env, Stats}
use roman_firmware.Http.Json.{quote, json_get_string, skip_blanks, open_quote}
use roman_firmware.Http.Json.Field.{json_get_string-field}
use roman_firmware.Http.Response.{Conn}
use roman_firmware.Http.Routing.{request_line, request_body, http_process_request}
use roman_firmware.Http.Connection.{Server, in_use, process, http_accept_cb}
use roman_firmware.Http.Answered.{Answered, process-Answered}
use roman_firmware.Http.Slots.{Outcome, accept-Outcome}
use roman_firmware.Http.Table.{here, next, accept, Reach-IsWellFormed}
use roman_firmware.Http.Callbacks.{IsLive, IsWellFormed}
use roman_firmware.Http.Flash.{Cause, process-Cause}
use roman_firmware.Http.Unchanged.{flash_of}

abbrev pub clock : Timer
clock = record {
  make_timeout_time_ms = λ now ms. now + ms;
  time_reached = λ now time. leb time now;
}

abbrev pub bench : Env
bench = record {
  crypto = plain_box;
  hardware = good_flash;
  timer = clock;
  now = 0;
  version = codes "0.2";
  sdk_version = codes "2.1.0";
  uptime_ms = 0;
  clock_hz = 150000000;
  unique_board_id = codes "E6614C311B4F5A2D";
  caused_reboot = false;
  stack_bottom = 0;
  stack_pointer = 0;
  netif = none;
}

abbrev pub no_stats : Stats
no_stats = record {
  requests = 0;
  sign_ok = 0;
  sign_bad = 0;
  write_ok = 0;
  write_bad = 0;
  clear_ok = 0;
  clear_bad = 0;
  not_found = 0;
  too_large = 0;
  errors = 0;
}

abbrev pub board_of : Keystore → Board
board_of ks = record {
  keystore = ks;
  led = record { current_pattern = ready; pattern_step = 0; next_toggle = 100; pin = true };
  stack = record { ram = []; used_max = 0; painted = true };
  stats = no_stats;
  signing_sk = replicate 64 0;
  boot_stage = Diag.idle;
}

abbrev pub blank_board : Board
blank_board = board_of blank

pub bench-IsSound : IsSound plain_box blank
bench-IsSound = blank-IsSound plain_box blank refl refl

abbrev blank_server : Server
blank_server = record { board = blank_board; http_states = none ∷ none ∷ none ∷ [] }

-- The body of a POST /write.
abbrev dev_body : Bytes
dev_body = codes "{\"device_id\":\"dev-01\"}"

found_id : json_get_string dev_body (codes "device_id") 33 ≡ some (codes "dev-01")
unfolding json_get_string strstr strchr skip_blanks open_quote snprintf
found_id = refl

json_get_string-field_example :
    json_get_string
      (b'{' ∷ quote ∷ codes "device_id"
        ++ (quote ∷ b':' ∷ quote ∷ codes "dev-01" ++ (quote ∷ codes "}")))
      (codes "device_id")
      33
    ≡ some (take 32 (codes "dev-01"))
json_get_string-field_example =
    json_get_string-field (codes "device_id") (codes "dev-01") (codes "}") 32 (omega arith)
      (omega arith) (omega arith)

accept-Outcome_example :
    Outcome 7 true blank_server (http_accept_cb bench true (some 7) blank_server)
accept-Outcome_example = accept-Outcome bench true 7 blank_server refl

all_free : (i : ℕ) → IsLive (get_or blank_server.http_states i none)
all_free zero = tt
all_free (suc zero) = tt
all_free (suc (suc zero)) = tt
all_free (suc (suc (suc i))) = tt

bench-IsWellFormed : IsWellFormed plain_box blank_server
bench-IsWellFormed = record { slots = refl; live = all_free; sound = bench-IsSound }

Reach-IsWellFormed_example :
    IsWellFormed plain_box (http_accept_cb bench true (some 7) blank_server).1.1
Reach-IsWellFormed_example =
    Reach-IsWellFormed plain_box blank_server (http_accept_cb bench true (some 7) blank_server).1.1
      plain_box_laws bench-IsWellFormed (next here (accept bench true (some 7) blank_server))

-- A connection that waits for ten bytes of body.
abbrev half_sent : Conn
half_sent = record {
  pcb = 7;
  buf = [];
  content_length = pos 10;
  sent = false;
  done = false;
  reset_after_send = false;
}

abbrev busy_server : Server
busy_server = record { board = blank_board; http_states = some half_sent ∷ none ∷ none ∷ [] }

abbrev info_request : Bytes
info_request = codes "GET /info HTTP/1.1\r\n\r\n"

process-Cause_example :
    (flash_of (http_process_request bench 1 info_request (pos 0) blank_board).1
      ≡ flash_of blank_board)
    ⊎ ((method : Bytes) × (path : Bytes) × (request_line (c_str info_request) ≡ some (method, path))
        × Cause bench method path (request_body (c_str info_request)) blank_board)
process-Cause_example =
    process-Cause bench 1 info_request (pos 0) blank_board plain_box_laws good_flash_laws
      bench-IsSound

-- A connection that has received the request.
abbrev asking : Conn
asking = record half_sent { buf = info_request; content_length = pos 0 }

process-Answered_example :
    Answered 7 0
      (http_process_request bench 1 info_request (pos 0) blank_board).0
      (process bench true 0 asking busy_server)
unfolding in_use
process-Answered_example = process-Answered bench 0 asking busy_server (omega arith) (omega arith)
