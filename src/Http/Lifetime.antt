-- ===== src/Http/Lifetime.antt =====
-- `http_server_init` and `http_server_deinit` of http_server.c.
--
-- `http_pcb` is the number of the listening pcb, `none` for NULL.
use roman_firmware.Prelude.{
  ℕ, zero, suc, Bool, not, Option, none, some, List, [], ◌∷◌, ◌++◌, if◌then◌else◌,
}
use roman_firmware.Storage.{Store}
use roman_firmware.Storage.Randomness.{storage_trng_probe}
use roman_firmware.Keystore.{keystore_state}
use roman_firmware.Http.Board.{Board, Env, with_keystore}
use roman_firmware.Http.Response.{Call, tcp_close, Conn}
use roman_firmware.Http.Connection.{Server, entry, http_close_conn}

-- From tcp_bind on: `bound` is whether it returned ERR_OK, `listening` what tcp_listen returned.
unfoldable pub listen : Option ℕ → Bool → Option ℕ → List Call × Option ℕ
listen none bound listening = ([], none)
listen (some pcb) bound listening =
    if not bound then (tcp_close pcb ∷ [], none) else ([], listening)

-- `created` is what tcp_new returned. The calls, `http_pcb`, and the board; the result is whether
-- `http_pcb` is not NULL.
unfoldable pub http_server_init :
    Env → Option ℕ → Bool → Option ℕ → Board → (List Call × Option ℕ) × Board
unfolding listen
http_server_init e created bound listening b =
    let (state, ks) = keystore_state e.crypto b.keystore in
    let (trng, random) = storage_trng_probe e.hardware.entropy ks.store.random in
    let store : Store = record (ks.store) { random = random } in
    (listen created bound listening, with_keystore (record ks { store = store }) b)

unfoldable pub close_entry : ℕ → Option Conn → Server → List Call × Server
close_entry i none s = ([], s)
close_entry i (some st) s = http_close_conn i st s

-- The loop over the table, from entry `i` on.
unfoldable pub close_loop : ℕ → ℕ → Server → List Call × Server
unfolding close_entry
close_loop zero i s = ([], s)
close_loop (suc n) i s =
    let (calls, s') = close_entry i (entry i s) s in
    let (rest, s'') = close_loop n (suc i) s' in (calls ++ rest, s'')

-- `http_pcb` is NULL afterwards.
unfoldable pub http_server_deinit : Option ℕ → Server → List Call × Server
http_server_deinit http_pcb s =
    let (calls, s') = close_loop 3 0 s in
    (elim http_pcb [ none ↦ calls | some pcb ↦ tcp_close pcb ∷ calls ], s')
