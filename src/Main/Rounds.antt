-- ===== src/Main/Rounds.antt =====
-- What holds from power-on to the end of the main loop.
use roman_firmware.Prelude.{
  ℕ, ◌+◌, ◌%◌, ◌^◌, ◌≡◌, refl, ap, ◌∙◌, subst, Bytes, Bool, true, false, Option, none, some, List,
  [], ◌∷◌, All, Bool-cases, inl, inr, ◌==◌,
}
use roman_firmware.Storage.{Crypto}
use roman_firmware.Storage.Assumptions.{CryptoLaws}
use roman_firmware.Keystore.Invariant.{IsSound, kept-IsSound, state-IsSound}
use roman_firmware.Dhcp.Socket
use roman_firmware.Dhcp.Socket.{dhcp_server_init, dhcp_socket_free, dhcp_server_deinit}
use roman_firmware.Usb.{Network, usb_network_init}
use roman_firmware.Http.Board.{Board, Env}
use roman_firmware.Http.Lifetime.{http_server_init}
use roman_firmware.Http.Callbacks.{no_entries, board-IsWellFormed}
use roman_firmware.Http.Connection.{in_use}
use roman_firmware.Http.Shutdown.{closes, closed, deinit-closes}
use roman_firmware.Dhcp
use roman_firmware.Dhcp.{fresh_server}
use roman_firmware.Dhcp.Session.{fresh-IsLike}
use roman_firmware.Main.Callbacks.{
  Makes, IsRunning, Makes-IsRunning, network-IsRunning, server-IsRunning, service-link,
}
use roman_firmware.Main.{
  ownip, netmask, serve_frame, usb_network_update, Machine, Answers, start_board, start_services,
  set_up, Round, tick, stops, main_loop, shut_down,
}

-- All that TinyUSB and lwIP do to the program in a round is to make its callbacks, on a board whose
-- cryptography is `c`.
pub record IsLawful (c : Crypto) (r : Round) : Type 0 where
  pub tasks : (m : Machine) → Makes c m (r.tud_task m)
  pub inputs : (p : Bytes) (m : Machine) → Makes c m (r.input p m).1
  pub renewals : (m : Machine) → Makes c m (r.tud_network_recv_renew m)
  pub timeouts : (m : Machine) → Makes c m (r.sys_check_timeouts m)

init-IsSound :
    (e : Env) (created : Option ℕ) (bound : Bool) (listening : Option ℕ) (b : Board)
    → IsSound e.crypto b.keystore
    → IsSound e.crypto (http_server_init e created bound listening b).1.keystore
unfolding http_server_init
init-IsSound e created bound listening b s =
    kept-IsSound e.crypto _ _ refl (state-IsSound e.crypto b.keystore s)

-- The DHCP server of the boot.
abbrev pub own_server : Dhcp.Server
own_server = fresh_server ownip netmask false

-- The main loop, if it is reached, starts with a machine that runs.
abbrev pub Starts : Crypto → Option ℕ → Option Machine → Type 0
Starts c udp none = Unit
Starts c udp (some m) = IsRunning c own_server udp m

socket_new_lem :
    (created : Option ℕ) → (dhcp_server_init created ownip netmask false).1.udp ≡ created
unfolding dhcp_server_init
socket_new_lem none = refl
socket_new_lem (some pcb) = refl

services-IsRunning :
    (a : Answers) (network : Network) (b : Board)
    → network.netif_added ≡ true
    → IsSound a.env.crypto b.keystore
    → Starts a.env.crypto a.udp (start_services a true network b)
unfolding start_services dhcp_server_init
services-IsRunning a network b link s = record {
  server = record {
    slots = refl;
    live = no_entries;
    sound = init-IsSound a.env a.created a.bound a.listening b s;
  };
  dhcp = fresh-IsLike ownip netmask false;
  socket = socket_new_lem a.udp;
  link = link;
}

pub set_up-IsRunning :
    (a : Answers) (b : Board) (network : Network)
    → IsSound a.env.crypto b.keystore
    → Starts a.env.crypto a.udp (set_up a b network)
unfolding set_up start_board usb_network_init start_services
set_up-IsRunning a b network s = elim (Bool-cases a.tud_init) [
  | inr down ↦ rw (down, set_up) tt
  | inl up ↦ elim (Bool-cases a.netif_add) [
    | inr missing ↦ rw (up, missing, set_up) tt
    | inl added ↦
        rw (up, added, set_up)
          (services-IsRunning a _ (start_board a b) refl (kept-IsSound a.env.crypto _ _ refl s))
  ]
]

module _ (c : Crypto) (udp : Option ℕ) (laws : CryptoLaws c) where
  abbrev Runs : Machine → Type 0
  Runs = IsRunning c own_server udp

  pub frame-IsRunning :
      (r : Round) (waiting : Option Bytes) (m : Machine)
      → IsLawful c r
      → Runs m
      → Runs (serve_frame r waiting m)
  unfolding serve_frame
  frame-IsRunning r none m lawful w = w
  frame-IsRunning r (some p) m lawful w =
      let (taken, m') = r.input p m in
      let w' = Makes-IsRunning c own_server udp laws (lawful.inputs p m) w in
      Makes-IsRunning c own_server udp laws (lawful.renewals _)
        (network-IsRunning c own_server udp m' _ w' (service-link taken m'.network))

  pub update-IsRunning :
      (r : Round) (m : Machine) → IsLawful c r → Runs m → Runs (usb_network_update r m)
  unfolding usb_network_update
  update-IsRunning r m lawful w = Makes-IsRunning c own_server udp laws (lawful.timeouts _) (
      frame-IsRunning r (r.tud_task m).network.received_frame (r.tud_task m) lawful
        (Makes-IsRunning c own_server udp laws (lawful.tasks m) w))

  pub tick-IsRunning : (r : Round) (m : Machine) → Runs m → Runs (tick r m)
  unfolding tick
  tick-IsRunning r m w =
      let later : (b : Board)
          → b.keystore ≡ m.server.board.keystore
          → Runs (record m {
            server = record (m.server) { board = b };
            stack_tick = (m.stack_tick + 1) % 2 ^ 32;
          }) =
        λ b same.
          server-IsRunning c own_server udp m _ _ w
            (board-IsWellFormed c _ m.server w.server (rw same w.server.sound)) in
      elim (Bool-cases ((m.stack_tick + 1) % 2 ^ 32 % 256 == 0)) [
        | inl check ↦ rw (check, tick) (later _ refl)
        | inr skip ↦ rw (skip, tick) (later _ refl)
      ]

  loop-IsRunning :
      (rounds : List Round) (m : Machine)
      → All (IsLawful c) rounds
      → Runs m
      → Runs (main_loop rounds m).1
  unfolding main_loop
  loop-IsRunning [] m all w = w
  loop-IsRunning (r ∷ rounds) m (lawful, all) w =
      let w2 = tick-IsRunning r (usb_network_update r m) (update-IsRunning r m lawful w) in
      elim (Bool-cases (stops r.key)) [
        | inl stop ↦ rw (stop, main_loop) w2
        | inr on ↦ rw (on, main_loop) (loop-IsRunning rounds _ all w2)
      ]

-- From a boot that succeeds, through any rounds of the main loop: the table of connections keeps its
-- three entries, no request outgrows its buffer, and the keystore stays sound; the DHCP server keeps
-- its address, mask, socket and eight leases; and the interface stays added. The keystore is sound at
-- power-on, TweetNaCl behaves as assumed, and what TinyUSB and lwIP do to the program in a round is to
-- make callbacks, with flash calls that behave as assumed.
pub main-IsWellFormed :
    (a : Answers) (b : Board) (network : Network) (m : Machine) (rounds : List Round)
    → CryptoLaws a.env.crypto
    → IsSound a.env.crypto b.keystore
    → set_up a b network ≡ some m
    → All (IsLawful a.env.crypto) rounds
    → IsRunning a.env.crypto own_server a.udp (main_loop rounds m).1
main-IsWellFormed a b network m rounds laws s e all =
    loop-IsRunning a.env.crypto a.udp laws rounds m all
      (subst (Starts a.env.crypto a.udp) e (set_up-IsRunning a b network s))

-- The removal of the DHCP server's socket.
abbrev pub removes : Option ℕ → List Socket.Call
removes none = []
removes (some pcb) = Socket.udp_remove pcb ∷ []

socket_free_lem :
    (udp : Option ℕ)
    → (let (calls, left) = dhcp_socket_free udp in (calls ≡ removes udp) × (left ≡ none))
unfolding dhcp_socket_free
socket_free_lem none = (refl, refl)
socket_free_lem (some pcb) = (refl, refl)

-- From a boot that succeeds with a sound keystore at power-on, the shutdown after any rounds of the main
-- loop closes the listening pcb, if there is one, and each open connection once, removes the UDP socket
-- of the DHCP server if the boot made one, and the interface, and leaves no connection, no socket and a
-- sound keystore. Sound: the cache agrees with flash, the sector has 4096 bytes, and a record that can
-- be read has its flag set. TweetNaCl behaves as assumed, and what TinyUSB and lwIP do to the program in
-- a round is to make callbacks, with flash calls that behave as assumed.
pub shut_down-closes :
    (a : Answers) (b : Board) (network : Network) (m : Machine) (rounds : List Round)
    → CryptoLaws a.env.crypto
    → IsSound a.env.crypto b.keystore
    → set_up a b network ≡ some m
    → All (IsLawful a.env.crypto) rounds
    → (let last = (main_loop rounds m).1 in
        let (calls, udp, removed, off) = shut_down last in
        (calls ≡ closed last.http_pcb (closes last.server.http_states))
        × (udp ≡ removes a.udp)
        × (off.dhcp_server.udp ≡ none)
        × (removed ≡ true)
        × (in_use off.server.http_states ≡ 0)
        × (off.network.netif_added ≡ false)
        × IsSound a.env.crypto off.server.board.keystore)
unfolding shut_down dhcp_server_deinit
shut_down-closes a b network m rounds laws s e all =
    let last = (main_loop rounds m).1 in
    let w = main-IsWellFormed a b network m rounds laws s e all in
    let (closing, none_left, table, same) =
      deinit-closes last.http_pcb last.server w.server.slots in
    let (removal, no_socket) = socket_free_lem last.dhcp_server.udp in
    (
      closing,
      removal ∙ ap removes w.socket,
      no_socket,
      w.link,
      none_left,
      refl,
      rw same w.server.sound,
    )
