-- ===== src/Http/Routes.antt =====
-- The request line, and the requests that no handler takes.
use roman_firmware.Prelude.{
  ℕ, ◌≡◌, refl, Bool, false, ◌&&◌, ◌||◌, some, List, [], ◌∷◌, ◌++◌, arith, Bytes, codes, take,
  bytes_eq,
}
use roman_firmware.CString.{ℤ}
use roman_firmware.CString.Search.{Without, strchr_first}
use roman_firmware.Http.Board.{Board, Env, count_up}
use roman_firmware.Http.Response.{reply}
use roman_firmware.Http.Routing.{
  space, request_line, http_send_404, handle_get, handle_post, dispatch,
}

-- A request line that is printed is read back, cut to 15 and 127 bytes: method and path hold no
-- space.
pub request_line_lem :
    (method path rest : Bytes)
    → Without space method
    → Without space path
    → request_line (method ++ (space ∷ path ++ (space ∷ rest)))
      ≡ some (take 15 method, take 127 path)
unfolding request_line
request_line_lem method path rest hm hp =
    rw (strchr_first space method (path ++ (space ∷ rest)) hm, request_line)
      (rw (strchr_first space path rest hp) refl)

-- The routes of the header comment of http_server.h, with POST /clear.
abbrev pub routes : List (Bytes × Bytes)
routes =
    (codes "GET", codes "/")
    ∷ (codes "GET", codes "/health")
    ∷ (codes "GET", codes "/info")
    ∷ (codes "GET", codes "/sign")
    ∷ (codes "POST", codes "/sign")
    ∷ (codes "POST", codes "/write")
    ∷ (codes "POST", codes "/clear")
    ∷ (codes "POST", codes "/debug")
    ∷ []

unfoldable pub listed : Bytes → Bytes → List (Bytes × Bytes) → Bool
listed method path [] = false
listed method path ((m, p) ∷ rest) = bytes_eq method m && bytes_eq path p || listed method path rest

-- A request for no route of the list, with a method other than OPTIONS, is answered 404 and counted;
-- nothing else of the board changes.
pub dispatch_unlisted :
    (e : Env) (conns : ℕ) (method path body : Bytes) (n : ℤ) (b : Board)
    → bytes_eq method (codes "OPTIONS") ≡ false
    → listed method path routes ≡ false
    → dispatch e conns method path body n b ≡ (
      reply 404 (codes "{\"error\":\"not found\"}"),
      record b {
        stats = record (b.stats) {
          requests = count_up b.stats.requests;
          not_found = count_up b.stats.not_found;
        };
      },
    )
unfolding listed dispatch handle_get handle_post http_send_404
dispatch_unlisted e conns method path body n b other unlisted = ground arith
