-- ===== src/Usb/Tests.antt =====
-- A board with the id 01 02 03 04 05 06 07 08.
use roman_firmware.Prelude.{
  ℕ, ◌+◌, ◌*◌, ◌/◌, ◌%◌, ◌≡◌, ◌<◌, ◌≤◌, ◌≢◌, refl, true, none, some, List, [], ◌∷◌, arith, Bytes,
  codes, length, get_or, take, replicate,
}
use roman_firmware.Usb.{
  tud_network_init_cb, tud_network_recv_cb, service_traffic, mac_of, hwaddr_of,
  tud_descriptor_string_cb,
}
use roman_firmware.Base64.{is_empty}
use roman_firmware.Usb.Address.{mac-hwaddr}
use roman_firmware.Usb.Ownership
use roman_firmware.Usb.Descriptors.{
  Macros, MacroLaws, strid_interface, strid_mac, usb_pid, desc_device, answers, Consistent,
  device-Consistent,
}
use roman_firmware.Usb.Frames.{Event, delivered, serviced, Log, run}

abbrev board_id : Bytes
board_id = 1 ∷ 2 ∷ 3 ∷ 4 ∷ 5 ∷ 6 ∷ 7 ∷ 8 ∷ []

abbrev mac : Bytes
mac = 2 ∷ 4 ∷ 5 ∷ 6 ∷ 7 ∷ 8 ∷ []

mac_of_board : mac_of board_id ≡ mac
unfolding mac_of
mac_of_board = refl

mac-hwaddr_example :
    (length (mac_of board_id) ≡ 6)
    × (get_or (mac_of board_id) 0 0 % 2 ≡ 0)
    × (get_or (mac_of board_id) 0 0 / 2 % 2 ≡ 1)
    × (length (hwaddr_of (mac_of board_id)) ≡ 6)
    × (take 5 (hwaddr_of (mac_of board_id)) ≡ take 5 (mac_of board_id))
    × (get_or (hwaddr_of (mac_of board_id)) 5 0 ≢ get_or (mac_of board_id) 5 0)
mac-hwaddr_example = mac-hwaddr 1 2 3 4 5 6 7 8 (omega arith) (omega arith)

mac_string :
    tud_descriptor_string_cb 3 board_id mac 5 ≡ some ((3 * 256 + 26) ∷ codes "020405060708")
unfolding tud_descriptor_string_cb
mac_string = refl

abbrev events : List Event
events =
    delivered true (1 ∷ []) ∷ delivered true (2 ∷ []) ∷ serviced true ∷ delivered true (3 ∷ []) ∷ []

abbrev quiet_link : Log
quiet_link = record {
  stored = [];
  handed = [];
  network = record {
    received_frame = none;
    netif_added = true;
    tud_network_mac_address = mac;
    hwaddr = mac;
    mtu = 1514;
    flags = [];
    name = [];
  };
}

-- The second frame is not accepted: TinyUSB is told so.
third_waits : (run events quiet_link).network.received_frame ≡ some (3 ∷ [])
unfolding run tud_network_recv_cb service_traffic is_empty
third_waits = refl

-- The second frame comes in while the first is with lwIP and is refused, the third is lost in a
-- restart, and nothing waits.
abbrev restarts : List Ownership.Event
restarts =
    Ownership.called (Ownership.delivered true (1 ∷ []))
    ∷ Ownership.serviced true (Ownership.delivered true (2 ∷ []) ∷ [])
    ∷ Ownership.called (Ownership.delivered true (3 ∷ []))
    ∷ Ownership.called Ownership.restarted
    ∷ []

abbrev idle_link : Ownership.Log
idle_link = record { allocated = []; released = []; network = quiet_link.network }

all_released : (Ownership.run restarts idle_link).released ≡ (1 ∷ []) ∷ (3 ∷ []) ∷ []
unfolding Ownership.run tud_network_recv_cb service_traffic tud_network_init_cb is_empty
all_released = refl

run-Owned_example : Ownership.Owned (Ownership.run restarts idle_link)
run-Owned_example = Ownership.run-Owned restarts idle_link (tt, ((tt, tt), (tt, (tt, tt)))) refl

-- A restart from within netif.input frees the frame that lwIP then takes.
abbrev restart_inside : List Ownership.Event
restart_inside =
    Ownership.called (Ownership.delivered true (1 ∷ []))
    ∷ Ownership.serviced true (Ownership.restarted ∷ [])
    ∷ []

given_up_twice : (Ownership.run restart_inside idle_link).released ≡ (1 ∷ []) ∷ (1 ∷ []) ∷ []
unfolding Ownership.run tud_network_init_cb tud_network_recv_cb service_traffic is_empty
given_up_twice = refl

-- TinyUSB's macros as they are documented.
abbrev macros : Macros
macros = record {
  tusb_desc_device = 1;
  tusb_class_misc = 0xEF;
  misc_subclass_common = 2;
  misc_protocol_iad = 1;
  cdc = 0;
  msc = 0;
  hid = 0;
  midi = 0;
  vendor = 0;
  net_endpoint_size = 64;
  net_mtu = 1514;
  config_desc_len = 9;
  rndis_desc_len = 66;
  ecm_desc_len = 71;
  config_descriptor = λ n i s len a p.
      9 ∷ 2 ∷ (len % 256) ∷ (len / 256 % 256) ∷ i ∷ n ∷ s ∷ (0x80 + a) ∷ (p / 2) ∷ [];
  rndis_descriptor = λ a b c d e f g. replicate 66 0;
  ecm_descriptor = λ a b c d e f g h i. replicate 71 0;
}

macro_laws : MacroLaws macros
macro_laws = record {
  header_size = λ n i s len a p. refl;
  header_fields = λ n i s len a p. refl;
  header_room = omega arith;
  rndis_size = λ a b c d e f g. refl;
  ecm_size = λ a b c d e f g h i. refl;
}

product_id : (desc_device macros).id_product ≡ 0x4020
unfolding desc_device usb_pid
product_id = refl

device-Consistent_example :
    (let d = desc_device macros in
      let string = tud_descriptor_string_cb 3 board_id mac in
      ((index : ℕ)
        → index < d.b_num_configurations
        → (bytes : Bytes) × (answers macros index ≡ some bytes) × Consistent index bytes)
      × ((index : ℕ) → d.b_num_configurations ≤ index → answers macros index ≡ none)
      × (string d.i_manufacturer ≢ none)
      × (string d.i_product ≢ none)
      × (string d.i_serial_number ≢ none)
      × (string strid_interface ≢ none)
      × (string strid_mac ≢ none))
device-Consistent_example = device-Consistent macros 3 board_id mac macro_laws
