-- ===== src/Http/Shutdown.antt =====
-- What is left of the HTTP service when it has been stopped.
use roman_firmware.Prelude.{
  ℕ, ◌≡◌, refl, sym, ap, ◌∙◌, arith, Option, none, some, List, [], ◌∷◌, length,
}
use roman_firmware.Http.Board.{Board}
use roman_firmware.Http.Response.{Call, tcp_close, Conn}
use roman_firmware.Http.Connection.{Server, in_use, http_close_conn}
use roman_firmware.Http.Lifetime.{close_entry, close_loop, http_server_deinit}

-- One call of tcp_close for each entry in use, in order.
unfoldable pub closes : List (Option Conn) → List Call
closes [] = []
closes (none ∷ states) = closes states
closes (some st ∷ states) = tcp_close st.pcb ∷ closes states

unfoldable pub closed : Option ℕ → List Call → List Call
closed none calls = calls
closed (some pcb) calls = tcp_close pcb ∷ calls

abbrev table : Board → Option Conn → Option Conn → Option Conn → Server
table b x y z = record { board = b; http_states = x ∷ y ∷ z ∷ [] }

loop-closes :
    (b : Board) (x y z : Option Conn)
    → close_loop 3 0 (table b x y z) ≡ (closes (x ∷ y ∷ z ∷ []), table b none none none)
unfolding close_loop close_entry closes http_close_conn
loop-closes b none none none = refl
loop-closes b none none (some z) = refl
loop-closes b none (some y) none = refl
loop-closes b none (some y) (some z) = refl
loop-closes b (some x) none none = refl
loop-closes b (some x) none (some z) = refl
loop-closes b (some x) (some y) none = refl
loop-closes b (some x) (some y) (some z) = refl

-- A table of three entries.
entries :
    (states : List (Option Conn))
    → length states ≡ 3
    → (x : Option Conn) × (y : Option Conn) × (z : Option Conn) × (states ≡ x ∷ y ∷ z ∷ [])
entries [] h = absurd (omega arith)
entries (x ∷ []) h = absurd (omega arith)
entries (x ∷ y ∷ []) h = absurd (omega arith)
entries (x ∷ y ∷ z ∷ []) h = (x, y, z, refl)
entries (x ∷ y ∷ z ∷ w ∷ states) h = absurd (omega arith)

every_entry :
    (s : Server)
    → length s.http_states ≡ 3
    → close_loop 3 0 s ≡ (closes s.http_states, table s.board none none none)
every_entry s size =
    let (x, y, z, all) = entries s.http_states size in
    ap (λ t. close_loop 3 0 (record s { http_states = t })) all
    ∙ loop-closes s.board x y z
    ∙ ap (λ t. (closes t, table s.board none none none)) (sym all)

-- http_server_deinit closes the listening pcb, if there is one, and then each open connection once,
-- in the order of the table; no entry stays in use, and the board is as it was. The table has its
-- three entries.
pub deinit-closes :
    (http_pcb : Option ℕ) (s : Server)
    → length s.http_states ≡ 3
    → (let (calls, s') = http_server_deinit http_pcb s in
        (calls ≡ closed http_pcb (closes s.http_states))
        × (in_use s'.http_states ≡ 0)
        × (length s'.http_states ≡ 3)
        × (s'.board ≡ s.board))
unfolding http_server_deinit in_use closed
deinit-closes none s size = rw (every_entry s size, http_server_deinit) (refl, refl, refl, refl)
deinit-closes (some pcb) s size =
    rw (every_entry s size, http_server_deinit) (refl, refl, refl, refl)
