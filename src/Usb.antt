-- ===== src/Usb.antt =====
-- The USB network glue, usb_network.c, and the string descriptors and the choice of a configuration of
-- usb_descriptors.c.
--
-- A frame is the list of its bytes. What TinyUSB, lwIP and the SDK answer are arguments: `allocated` is
-- whether pbuf_alloc returned a buffer, `taken` whether netif.input returned ERR_OK. The calls that
-- reach them are listed as values.
pub mod Frames
pub mod Ownership
pub mod Bringup
pub mod Descriptors
pub mod Address
pub mod Strings
pub mod Tests
use Prim.Native.Nat.{bit_and, bit_or, bit_xor}
use roman_firmware.Prelude.{
  ℕ, zero, suc, ◌+◌, ◌*◌, ◌/◌, ◌%◌, Bool, true, false, not, Option, none, some, List, [], ◌∷◌, ◌++◌,
  Bytes, codes, length, get_or, set, slice, take, write_at, ltb, ◌==◌, if◌then◌else◌,
}
use roman_firmware.Base64.{is_empty}

-- The bits of netif.flags.
pub data Flag : Type 0 where
  broadcast etharp ethernet igmp link_up up : Flag

-- The statics of the file; `mtu`, `flags` and `name` are fields of the netif, as `hwaddr` is.
pub record Network : Type 0 where
  pub received_frame : Option Bytes
  pub netif_added : Bool
  pub tud_network_mac_address : Bytes
  pub hwaddr : Bytes
  pub mtu : ℕ
  pub flags : List Flag
  pub name : Bytes

pub data Call : Type 0 where
  input : Bytes → Call
  pbuf_free : Bytes → Call
  tud_network_xmit : Bytes → Call
  tud_network_recv_renew : Call

pub data Err : Type 0 where
  err_ok err_use : Err

-- `tud_output`: the answers of tud_ready and of tud_network_can_xmit, round by round; tud_task runs
-- between the rounds. `none` is a loop that still waits at the end of the list.
unfoldable pub tud_output : List (Bool × Bool) → Bytes → Option (Err × List Call)
tud_output [] p = none
tud_output ((tud_ready, can_xmit) ∷ rounds) p =
    let later = tud_output rounds p in
    if not tud_ready
    then some (err_use, [])
    else if can_xmit
    then some (err_ok, tud_network_xmit p ∷ [])
    else later

-- `net_mtu` is CFG_TUD_NET_MTU.
unfoldable pub netif_init_cb : ℕ → Network → Network
netif_init_cb net_mtu n = record n {
  mtu = net_mtu;
  flags = broadcast ∷ etharp ∷ ethernet ∷ igmp ∷ link_up ∷ up ∷ [];
  name = codes "EX";
}

unfoldable pub tud_network_init_cb : Network → List Call × Network
tud_network_init_cb n = elim n.received_frame [
  | none ↦ ([], n)
  | some p ↦ (pbuf_free p ∷ [], record n { received_frame = none })
]

unfoldable pub tud_network_recv_cb : Bool → Bytes → Network → Bool × Network
tud_network_recv_cb allocated src n = elim n.received_frame [
  | some p ↦ (false, n)
  | none ↦
      if is_empty src
      then (true, n)
      else if allocated
      then (true, record n { received_frame = some src })
      else (true, n)
]

-- The length, and `dst` with the frame copied into it.
unfoldable pub tud_network_xmit_cb : Bytes → Bytes → ℕ × Bytes
tud_network_xmit_cb p dst = (length p, write_at 0 p dst)

unfoldable pub service_traffic : Bool → Network → List Call × Network
service_traffic taken n = elim n.received_frame [
  | none ↦ ([], n)
  | some p ↦ (
    input p
        ∷ (if taken
            then tud_network_recv_renew ∷ []
            else pbuf_free p ∷ tud_network_recv_renew ∷ []),
    record n { received_frame = none },
  )
]

-- The address of the device, from the eight bytes of the board id.
unfoldable pub mac_of : Bytes → Bytes
mac_of board_id =
    let mac = slice 2 6 board_id in set mac 0 (bit_or (bit_and (get_or mac 0 0) 0xFE) 0x02)

-- The address of the interface in lwIP.
unfoldable pub hwaddr_of : Bytes → Bytes
hwaddr_of mac = set mac 5 (bit_xor (get_or mac 5 0) 0x01)

abbrev hex_digits : Bytes
hex_digits = codes "0123456789ABCDEF"

-- The loops over the bytes of the serial number and of the MAC address.
unfoldable pub hex_text : Bytes → Bytes
hex_text [] = []
hex_text (x ∷ bytes) =
    get_or hex_digits (x / 16 % 16) 0 ∷ get_or hex_digits (x % 16) 0 ∷ hex_text bytes

-- The line that is printed.
unfoldable pub mac_string : Bytes → Bytes
unfolding hex_text
mac_string hwaddr = hex_text hwaddr

unfoldable pub is_up : List Flag → Bool
is_up [] = false
is_up (up ∷ flags) = true
is_up (flag ∷ flags) = is_up flags

-- `usb_network_init`: `tud_init` and `netif_add` are whether these succeed, and netif_add calls
-- `netif_init_cb`. It then waits until the interface is up, and does not return before: `none`.
unfoldable pub usb_network_init : Bool → Bool → ℕ → Bytes → Network → Option (Bool × Network)
unfolding mac_of hwaddr_of netif_init_cb is_up
usb_network_init tud_init netif_add net_mtu board_id n =
    let mac = mac_of board_id in
    let n' = record n { tud_network_mac_address = mac; hwaddr = hwaddr_of mac } in
    let n'' = record (netif_init_cb net_mtu n') { netif_added = true } in
    if not tud_init
    then some (false, n)
    else if not netif_add
    then some (false, n')
    else if is_up n''.flags
    then some (true, n'')
    else none

-- `usb_network_deinit`: whether netif_remove is called, and the state.
unfoldable pub usb_network_deinit : Network → Bool × Network
usb_network_deinit n = (n.netif_added, record n { netif_added = false; flags = [] })

-- The strings at the default case; the entry at STRID_SERIAL is NULL, and not read.
unfoldable pub string_at : ℕ → Option Bytes
string_at index =
    if index == 1
    then some (codes "Roman")
    else if index == 2
    then some (codes "Roman USB Net")
    else if index == 4
    then some (codes "TinyUSB Network Interface")
    else none

-- The characters behind the header word, and what they are cut to.
unfoldable pub string_chars : Bytes → Bytes → ℕ → Option Bytes
unfolding hex_text string_at
string_chars board_id mac index =
    if index == 0
    then some (0x0409 ∷ [])
    else if index == 3
    then some (hex_text board_id)
    else if index == 5
    then some (hex_text mac)
    else elim (string_at index) [ none ↦ none | some str ↦ some (take 32 str) ]

-- `tud_descriptor_string_cb`: the words of the descriptor; `none` is NULL. `desc_string` is
-- TUSB_DESC_STRING. The header's two fields are `desc_string * 256` and a length below 256.
unfoldable pub tud_descriptor_string_cb : ℕ → Bytes → Bytes → ℕ → Option (List ℕ)
unfolding string_chars
tud_descriptor_string_cb desc_string board_id mac index = elim (string_chars board_id mac index) [
  | none ↦ none
  | some chars ↦ some ((desc_string * 256 + (2 * length chars + 2)) ∷ chars)
]

-- `tud_descriptor_configuration_cb`, with RNDIS and ECM enabled; `none` is NULL.
unfoldable pub tud_descriptor_configuration_cb : Bytes → Bytes → ℕ → Option Bytes
tud_descriptor_configuration_cb rndis ecm index =
    if ltb index 2 then (if index == 0 then some rndis else some ecm) else none
