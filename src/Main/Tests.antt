-- ===== src/Main/Tests.antt =====
-- A boot on an erased board, and two rounds, of which the second reads an 's'.
use roman_firmware.Prelude.{
  ℕ, ◌≡◌, refl, ◌⊎◌, inl, inr, true, false, none, some, List, [], ◌∷◌, All,
}
use roman_firmware.Bench.{plain_box, plain_box_laws}
use roman_firmware.Base64.{is_empty}
use roman_firmware.Usb.{Network, tud_network_recv_cb, service_traffic, usb_network_init}
use roman_firmware.Http.Connection.{first_free, http_accept_cb}
use roman_firmware.Http.Table.{here, next, accept}
use roman_firmware.Main.Callbacks.{quiet, served, frame, IsRunning}
use roman_firmware.Http.Tests.{bench, blank_board, bench-IsSound}
use roman_firmware.Http.Connection.{in_use}
use roman_firmware.Http.Shutdown.{closes, closed}
use roman_firmware.Keystore.Invariant.{IsSound}
use roman_firmware.Main.{
  Machine, Answers, set_up, start_services, Round, stops, main_loop, shut_down, usb_network_update,
  serve_frame, tick,
}
use roman_firmware.Http.Unchanged.{flash_of}
use roman_firmware.Http.Provisions.{written, written_flag, written-IsSound}
use roman_firmware.Main.Lasting.{stored, LoopOpens, main-Lasts}
use roman_firmware.Main.Rounds.{own_server, IsLawful, removes, main-IsWellFormed, shut_down-closes}

abbrev answers : Answers
answers = record {
  env = bench;
  frame = 0;
  board_id = 1 ∷ 2 ∷ 3 ∷ 4 ∷ 5 ∷ 6 ∷ 7 ∷ 8 ∷ [];
  tud_init = true;
  netif_add = true;
  net_mtu = 1514;
  udp = some 3;
  created = some 1;
  bound = true;
  listening = some 2;
}

abbrev cold_network : Network
cold_network = record {
  received_frame = none;
  netif_added = false;
  tud_network_mac_address = [];
  hwaddr = [];
  mtu = 0;
  flags = [];
  name = [];
}

-- The round in which a frame comes in, and with it a connection.
abbrev arrival : ℕ → Round
arrival key = record {
  env = bench;
  tud_task = λ m. record m { network = (tud_network_recv_cb true (1 ∷ []) m.network).1 };
  input = λ p m. (true, record m { server = (http_accept_cb bench true (some 7) m.server).1.1 });
  tud_network_recv_renew = λ m. m;
  sys_check_timeouts = λ m. m;
  level = true;
  key = key;
}

arrival-IsLawful : (key : ℕ) → IsLawful plain_box (arrival key)
arrival-IsLawful key = record {
  tasks = λ m. frame true (1 ∷ []) quiet;
  inputs = λ p m. served quiet (next here (accept bench true (some 7) m.server));
  renewals = λ m. quiet;
  timeouts = λ m. quiet;
}

started : (m : Machine) × (set_up answers blank_board cold_network ≡ some m)
unfolding set_up start_services usb_network_init
started = (_, refl)

abbrev rounds : List Round
rounds = arrival 0 ∷ arrival 115 ∷ []

lawful : All (IsLawful plain_box) rounds
lawful = (arrival-IsLawful 0, (arrival-IsLawful 115, tt))

-- The second of the two rounds ends the loop.
loop_ends : (main_loop rounds started.0).0 ≡ true
unfolding main_loop stops
loop_ends = refl

-- The frame has reached lwIP, and the connection has its entry.
arrived : in_use (main_loop rounds started.0).1.server.http_states ≡ 2
unfolding main_loop in_use tud_network_recv_cb started is_empty service_traffic http_accept_cb
    first_free
arrived = refl

main-IsWellFormed_example : IsRunning plain_box own_server (some 3) (main_loop rounds started.0).1
main-IsWellFormed_example =
    main-IsWellFormed answers blank_board cold_network started.0 rounds plain_box_laws bench-IsSound
      started.1 lawful

shut_down-closes_example :
    (let last = (main_loop rounds started.0).1 in
      let (calls, udp, removed, off) = shut_down last in
      (calls ≡ closed last.http_pcb (closes last.server.http_states))
      × (udp ≡ removes (some 3))
      × (off.dhcp_server.udp ≡ none)
      × (removed ≡ true)
      × (in_use off.server.http_states ≡ 0)
      × (off.network.netif_added ≡ false)
      × IsSound plain_box off.server.board.keystore)
shut_down-closes_example =
    shut_down-closes answers blank_board cold_network started.0 rounds plain_box_laws bench-IsSound
      started.1 lawful

-- The same boot and rounds, on a board that has been provisioned.
restarted : (m : Machine) × (set_up answers written cold_network ≡ some m)
unfolding set_up start_services usb_network_init
restarted = (_, refl)

main-Lasts_example :
    (stored (main_loop rounds restarted.0).1 ≡ flash_of written)
    ⊎ LoopOpens plain_box (flash_of written) rounds lawful restarted.0
main-Lasts_example =
    main-Lasts answers written cold_network restarted.0 rounds lawful plain_box_laws written-IsSound
      written_flag restarted.1

-- In these rounds connections come in and nothing is asked for: the record is not opened to anyone.
never_opened : LoopOpens plain_box (flash_of written) rounds lawful restarted.0 → ⊥
unfolding lawful arrival-IsLawful restarted set_up start_services usb_network_init tick
    tud_network_recv_cb is_empty usb_network_update serve_frame service_traffic
never_opened (inl (inl h)) = h
never_opened (inl (inr (inl (inl (inl h))))) = h
never_opened (inl (inr (inl (inl (inr (inl h)))))) = h
never_opened (inl (inr (inl (inl (inr (inr (same, h))))))) = h
never_opened (inl (inr (inl (inr h)))) = h
never_opened (inl (inr (inr h))) = h
never_opened (inr (on, inl (inl h))) = h
never_opened (inr (on, inl (inr (inl (inl (inl h)))))) = h
never_opened (inr (on, inl (inr (inl (inl (inr (inl h))))))) = h
never_opened (inr (on, inl (inr (inl (inl (inr (inr (same, h)))))))) = h
never_opened (inr (on, inl (inr (inl (inr h))))) = h
never_opened (inr (on, inl (inr (inr h)))) = h
never_opened (inr (on, inr (more, h))) = h
