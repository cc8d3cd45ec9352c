-- ===== src/Http/Table.antt =====
-- The connection table under every sequence of lwIP's callbacks.
use roman_firmware.Prelude.{ℕ, ◌≡◌, inl, inr, Bool, Option, none, some, Bytes, Bool-cases}
use roman_firmware.Storage.{Crypto}
use roman_firmware.Storage.Assumptions.{CryptoLaws, HardwareLaws}
use roman_firmware.Http.Board.{Env}
use roman_firmware.Http.Connection.{
  Err, Server, entry, http_recv_cb, http_sent_cb, http_err_cb, first_free, http_accept_cb,
}
use roman_firmware.Http.Callbacks.{
  IsWellFormed, store-IsWellFormed, board-IsWellFormed, conn-IsWellFormed, sent-IsWellFormed,
  slot-IsWellFormed,
}

-- One callback of lwIP, on a board whose cryptography is `c`.
pub data Step (c : Crypto) : Server → Server → Type 0 where
  recv :
      (e : Env) (accepted : Bool) (arg : Option ℕ) (p : Option Bytes) (err : Err) (s : Server)
      → e.crypto ≡ c
      → HardwareLaws e.hardware
      → Step c s (http_recv_cb e accepted arg p err s).1.1
  sent : (arg : Option ℕ) (s : Server) → Step c s (http_sent_cb arg s).1
  failed : (e : Env) (arg : Option ℕ) (s : Server) → Step c s (http_err_cb e arg s)
  accept :
      (e : Env) (allocated : Bool) (pcb : Option ℕ) (s : Server)
      → Step c s (http_accept_cb e allocated pcb s).1.1

-- Any number of callbacks, in any order.
pub data Reach (c : Crypto) (s : Server) : Server → Type 0 where
  here : Reach c s s
  next : {t u : Server} → Reach c s t → Step c t u → Reach c s u

module _ (c : Crypto) (laws : CryptoLaws c) where
  Step-IsWellFormed : {s t : Server} → Step c s t → IsWellFormed c s → IsWellFormed c t
  unfolding http_recv_cb http_sent_cb http_err_cb http_accept_cb
  Step-IsWellFormed (recv e accepted none p err s at_c hl) w = w
  Step-IsWellFormed (recv e accepted (some i) p err s at_c hl) w =
      conn-IsWellFormed c e at_c laws hl accepted i (entry i s) p err s w (w.live i)
  Step-IsWellFormed (sent none s) w = w
  Step-IsWellFormed (sent (some i) s) w = sent-IsWellFormed c i (entry i s) s w
  Step-IsWellFormed (failed e none s) w = board-IsWellFormed c _ s w w.sound
  Step-IsWellFormed (failed e (some i) s) w =
      store-IsWellFormed c i none _ (board-IsWellFormed c _ s w w.sound) tt
  Step-IsWellFormed (accept e allocated none s) w = w
  Step-IsWellFormed (accept e allocated (some pcb) s) w = elim (Bool-cases allocated) [
    | inl there ↦ rw there (slot-IsWellFormed c e pcb (first_free s.http_states) s w)
    | inr full ↦ rw full w
  ]

-- Whatever lwIP calls, in any order and with any data: the table keeps its three entries, no request
-- outgrows its buffer, `sent` and `done` go together, and the keystore stays sound. The server is
-- well formed to begin with, and TweetNaCl and the flash calls behave as assumed.
pub Reach-IsWellFormed :
    (c : Crypto) (s t : Server) → CryptoLaws c → IsWellFormed c s → Reach c s t → IsWellFormed c t
Reach-IsWellFormed c s t laws w here = w
Reach-IsWellFormed c s t laws w (next {t = u} r st) =
    Step-IsWellFormed c laws st (Reach-IsWellFormed c s u laws w r)
