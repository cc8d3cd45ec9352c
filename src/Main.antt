-- ===== src/Main.antt =====
-- `app_main` of main.c: the boot, the main loop and the shutdown.
--
-- A `Machine` is the state once the set-up is over. Before it there is a `Board`, the statics of the
-- modules at power-on, and a `Network`. mDNS is lwIP's and has no state here, as the UART has none.
pub mod Callbacks
pub mod Rounds
pub mod Lasting
pub mod Tests
use roman_firmware.Prelude.{
  ℕ, ◌+◌, ◌%◌, ◌^◌, Bool, true, false, ◌||◌, ◌>>=◌, Option, none, some, List, [], ◌∷◌, Bytes,
  replicate, ◌==◌, if◌then◌else◌,
}
use roman_firmware.Diag.{Stage, diag_capture_boot_stage}
use roman_firmware.Led.{Led, led_init, led_set_ready, led_tick}
use roman_firmware.Stack.{Stack, stack_init, stack_check}
use roman_firmware.Storage.{Store}
use roman_firmware.Keystore.{Keystore}
use roman_firmware.Dhcp.Socket
use roman_firmware.Dhcp.Socket.{Service, dhcp_server_init, dhcp_server_deinit}
use roman_firmware.Usb.{Network, service_traffic, usb_network_init, usb_network_deinit}
use roman_firmware.Http.Board.{Board, Env, with_keystore}
use roman_firmware.Http.Connection.{Server}
use roman_firmware.Http.Response.{Call}
use roman_firmware.Http.Lifetime.{http_server_init, http_server_deinit}

abbrev pub ownip : Bytes
ownip = 192 ∷ 168 ∷ 7 ∷ 1 ∷ []

abbrev pub netmask : Bytes
netmask = 255 ∷ 255 ∷ 255 ∷ 0 ∷ []

pub record Machine : Type 0 where
  pub server : Server
  pub http_pcb : Option ℕ
  pub network : Network
  pub dhcp_server : Service
  pub stack_tick : ℕ

-- What the SDK, TinyUSB and lwIP answer during the boot. `frame` is the frame address in stack_init,
-- `created` and `listening` are what tcp_new and tcp_listen return, `udp` what
-- udp_new returns. `net_mtu` is CFG_TUD_NET_MTU.
pub record Answers : Type 0 where
  pub env : Env
  pub frame : ℕ
  pub board_id : Bytes
  pub tud_init : Bool
  pub netif_add : Bool
  pub net_mtu : ℕ
  pub udp : Option ℕ
  pub created : Option ℕ
  pub bound : Bool
  pub listening : Option ℕ

-- stack_init, led_init and diag_capture_boot_stage
unfoldable pub start_board : Answers → Board → Board
start_board a b =
    let e = a.env in
    let (boot_stage, scratch) = diag_capture_boot_stage e.caused_reboot b.keystore.store.scratch in
    let store : Store = record (b.keystore.store) { scratch = scratch } in
    record b {
      stack = stack_init a.frame b.stack;
      led = led_init e.timer e.now b.led;
      boot_stage = boot_stage;
      keystore = record (b.keystore) { store = store };
    }

-- From usb_network_init to the main loop.
unfoldable pub start_services : Answers → Bool → Network → Board → Option Machine
start_services a false network b = none
start_services a true network b =
    let e = a.env in
    let ((calls, http_pcb), b') = http_server_init e a.created a.bound a.listening b in
    some (record {
      server = record {
        board = record b' { led = led_set_ready e.timer e.now b'.led };
        http_states = replicate 3 none;
      };
      http_pcb = http_pcb;
      network = network;
      dhcp_server = (dhcp_server_init a.udp ownip netmask false).1;
      stack_tick = 0;
    })

-- `none` is the result -1, or a boot that waits for the interface for ever.
unfoldable pub set_up : Answers → Board → Network → Option Machine
unfolding start_board start_services
set_up a b network = do
  (up, network') ← usb_network_init a.tud_init a.netif_add a.net_mtu a.board_id network
  start_services a up network' (start_board a b)

-- One round. What runs in TinyUSB and lwIP comes back to the program through callbacks, so `tud_task`,
-- `input` (the netif's, with whether it returned ERR_OK), `tud_network_recv_renew` and
-- `sys_check_timeouts` are functions of the machine. Then the level of the LED's pin, and what
-- getchar_timeout_us returns.
pub record Round : Type 0 where
  pub env : Env
  pub tud_task : Machine → Machine
  pub input : Bytes → Machine → Bool × Machine
  pub tud_network_recv_renew : Machine → Machine
  pub sys_check_timeouts : Machine → Machine
  pub level : Bool
  pub key : ℕ

-- `service_traffic` with the frame that it finds.
unfoldable pub serve_frame : Round → Option Bytes → Machine → Machine
serve_frame r none m = m
serve_frame r (some p) m =
    let (taken, m') = r.input p m in
    r.tud_network_recv_renew (record m' { network = (service_traffic taken m'.network).1 })

unfoldable pub usb_network_update : Round → Machine → Machine
unfolding serve_frame
usb_network_update r m =
    let m' = r.tud_task m in r.sys_check_timeouts (serve_frame r m'.network.received_frame m')

-- led_tick, and stack_check in every 256th round.
unfoldable pub tick : Round → Machine → Machine
tick r m =
    let b = m.server.board in
    let b' : Board = record b { led = led_tick r.env.timer r.env.now r.level b.led } in
    let stack_tick = (m.stack_tick + 1) % 2 ^ 32 in
    let b'' = if stack_tick % 256 == 0 then record b' { stack = stack_check b'.stack } else b' in
    record m { server = record (m.server) { board = b'' }; stack_tick = stack_tick }

-- key is 's' or 'S'
unfoldable pub stops : ℕ → Bool
stops key = key == 115 || key == 83

-- Whether the loop has ended, and the state it has come to.
unfoldable pub main_loop : List Round → Machine → Bool × Machine
unfolding tick stops usb_network_update
main_loop [] m = (false, m)
main_loop (r ∷ rounds) m =
    let m' = tick r (usb_network_update r m) in
    let later = main_loop rounds m' in if stops r.key then (true, m') else later

-- Behind the loop: what the HTTP service and the DHCP server still call, whether the interface is
-- removed, and the state.
unfoldable pub shut_down : Machine → List Call × List Socket.Call × Bool × Machine
unfolding usb_network_deinit
shut_down m =
    let (calls, server) = http_server_deinit m.http_pcb m.server in
    let (closes, dhcp_server) = dhcp_server_deinit m.dhcp_server in
    let (removed, network) = usb_network_deinit m.network in
    (
      calls,
      closes,
      removed,
      record m { server = server; http_pcb = none; dhcp_server = dhcp_server; network = network },
    )
