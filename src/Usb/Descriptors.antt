-- ===== src/Usb/Descriptors.antt =====
-- The device and configuration descriptors of usb_descriptors.c, built with CFG_TUD_ECM_RNDIS 1 and
-- CFG_TUD_NCM 0, as tusb_config.h sets them. The endpoint numbers are those of a microcontroller that
-- none of the special cases names.
use Prim.Native.Nat.{bit_or}
use roman_firmware.Prelude.{
  ℕ, zero, suc, ◌+◌, ◌*◌, ◌/◌, ◌%◌, ◌≡◌, ◌≢◌, ◌<◌, ◌≤◌, refl, sym, [], ◌∷◌, ap, ◌∙◌, Option, none,
  some, Bytes, ◌++◌, arith, length, length-append, slice, slice-append_less, le→ltb,
}
use roman_firmware.Usb.{tud_descriptor_string_cb, tud_descriptor_configuration_cb}

-- TinyUSB's macros and constants. The arguments are those of the macros, in order.
pub record Macros : Type 0 where
  pub tusb_desc_device : ℕ
  pub tusb_class_misc : ℕ
  pub misc_subclass_common : ℕ
  pub misc_protocol_iad : ℕ
  pub cdc : ℕ
  pub msc : ℕ
  pub hid : ℕ
  pub midi : ℕ
  pub vendor : ℕ
  pub net_endpoint_size : ℕ
  pub net_mtu : ℕ
  pub config_desc_len : ℕ
  pub rndis_desc_len : ℕ
  pub ecm_desc_len : ℕ
  pub config_descriptor : ℕ → ℕ → ℕ → ℕ → ℕ → ℕ → Bytes
  pub rndis_descriptor : ℕ → ℕ → ℕ → ℕ → ℕ → ℕ → ℕ → Bytes
  pub ecm_descriptor : ℕ → ℕ → ℕ → ℕ → ℕ → ℕ → ℕ → ℕ → ℕ → Bytes

-- What TinyUSB documents of them: the sizes, and the fields wTotalLength, bNumInterfaces and
-- bConfigurationValue of a configuration header.
pub record MacroLaws (t : Macros) : Type 0 where
  pub header_size :
      (n i s len a p : ℕ) → length (t.config_descriptor n i s len a p) ≡ t.config_desc_len
  pub header_fields :
      (n i s len a p : ℕ)
      → slice 2 4 (t.config_descriptor n i s len a p) ≡ len % 256 ∷ len / 256 % 256 ∷ i ∷ n ∷ []
  pub header_room : 9 ≤ t.config_desc_len
  pub rndis_size :
      (a b c d e f g : ℕ) → length (t.rndis_descriptor a b c d e f g) ≡ t.rndis_desc_len
  pub ecm_size :
      (a b c d e f g h i : ℕ) → length (t.ecm_descriptor a b c d e f g h i) ≡ t.ecm_desc_len

-- STRID_*, ITF_NUM_*, CONFIG_ID_* and EPNUM_NET_*
abbrev strid_manufacturer : ℕ
strid_manufacturer = 1

abbrev strid_product : ℕ
strid_product = 2

abbrev strid_serial : ℕ
strid_serial = 3

abbrev pub strid_interface : ℕ
strid_interface = 4

abbrev pub strid_mac : ℕ
strid_mac = 5

abbrev itf_num_cdc : ℕ
itf_num_cdc = 0

abbrev itf_num_total : ℕ
itf_num_total = 2

abbrev config_id_rndis : ℕ
config_id_rndis = 0

abbrev config_id_ecm : ℕ
config_id_ecm = 1

abbrev config_id_count : ℕ
config_id_count = 2

abbrev epnum_net_notif : ℕ
epnum_net_notif = 0x81

abbrev epnum_net_out : ℕ
epnum_net_out = 0x02

abbrev epnum_net_in : ℕ
epnum_net_in = 0x82

-- tusb_desc_device_t
pub record Device : Type 0 where
  pub b_length : ℕ
  pub b_descriptor_type : ℕ
  pub bcd_usb : ℕ
  pub b_device_class : ℕ
  pub b_device_sub_class : ℕ
  pub b_device_protocol : ℕ
  pub b_max_packet_size0 : ℕ
  pub id_vendor : ℕ
  pub id_product : ℕ
  pub bcd_device : ℕ
  pub i_manufacturer : ℕ
  pub i_product : ℕ
  pub i_serial_number : ℕ
  pub b_num_configurations : ℕ

module _ (t : Macros) where
  -- USB_PID
  unfoldable pub usb_pid : ℕ
  usb_pid = bit_or 0x4000 (
      bit_or t.cdc (
        bit_or (t.msc * 2) (
          bit_or (t.hid * 4)
            (bit_or (t.midi * 8) (bit_or (t.vendor * 16) (bit_or (1 * 32) (0 * 32)))))))

  unfoldable pub desc_device : Device
  unfolding usb_pid
  desc_device = record {
    b_length = 18;
    b_descriptor_type = t.tusb_desc_device;
    bcd_usb = 0x0110;
    b_device_class = t.tusb_class_misc;
    b_device_sub_class = t.misc_subclass_common;
    b_device_protocol = t.misc_protocol_iad;
    b_max_packet_size0 = 64;
    id_vendor = 0xCafe;
    id_product = usb_pid;
    bcd_device = 0x0101;
    i_manufacturer = strid_manufacturer;
    i_product = strid_product;
    i_serial_number = strid_serial;
    b_num_configurations = config_id_count;
  }

  unfoldable pub rndis_configuration : Bytes
  rndis_configuration =
      t.config_descriptor (config_id_rndis + 1) itf_num_total 0
        (t.config_desc_len + t.rndis_desc_len) 0 100
      ++ t.rndis_descriptor itf_num_cdc strid_interface epnum_net_notif 8 epnum_net_out epnum_net_in
          t.net_endpoint_size

  unfoldable pub ecm_configuration : Bytes
  ecm_configuration =
      t.config_descriptor (config_id_ecm + 1) itf_num_total 0 (t.config_desc_len + t.ecm_desc_len) 0
        100
      ++ t.ecm_descriptor itf_num_cdc strid_interface strid_mac epnum_net_notif 64 epnum_net_out
          epnum_net_in t.net_endpoint_size t.net_mtu

abbrev pub answers : Macros → ℕ → Option Bytes
answers t = tud_descriptor_configuration_cb (rndis_configuration t) (ecm_configuration t)

-- A configuration says its own length, two interfaces, and its number, which is its index and one.
abbrev pub Consistent : ℕ → Bytes → Type 0
Consistent index bytes =
    slice 2 4 bytes ≡ length bytes % 256 ∷ length bytes / 256 % 256 ∷ 2 ∷ (index + 1) ∷ []

two_parts :
    (t : Macros) (index body_len : ℕ) (body : Bytes)
    → MacroLaws t
    → length body ≡ body_len
    → Consistent index
        (t.config_descriptor (index + 1) 2 0 (t.config_desc_len + body_len) 0 100 ++ body)
two_parts t index body_len body laws size =
    let header = t.config_descriptor (index + 1) 2 0 (t.config_desc_len + body_len) 0 100 in
    let whole : length (header ++ body) ≡ t.config_desc_len + body_len = omega (
      arith,
      length-append header body,
      laws.header_size (index + 1) 2 0 (t.config_desc_len + body_len) 0 100,
    ) in
    let inside : 2 + 4 ≤ length header = omega (
      arith,
      laws.header_room,
      laws.header_size (index + 1) 2 0 (t.config_desc_len + body_len) 0 100,
    ) in
    slice-append_less 2 4 header body inside
    ∙ (laws.header_fields (index + 1) 2 0 (t.config_desc_len + body_len) 0 100
        ∙ ap (λ n. n % 256 ∷ n / 256 % 256 ∷ 2 ∷ (index + 1) ∷ []) (sym whole))

configuration-Consistent :
    (t : Macros) (index : ℕ)
    → MacroLaws t
    → index < 2
    → (bytes : Bytes) × (answers t index ≡ some bytes) × Consistent index bytes
unfolding tud_descriptor_configuration_cb rndis_configuration ecm_configuration
configuration-Consistent t zero laws h =
    (_, refl, two_parts t 0 t.rndis_desc_len _ laws (laws.rndis_size _ _ _ _ _ _ _))
configuration-Consistent t (suc zero) laws h =
    (_, refl, two_parts t 1 t.ecm_desc_len _ laws (laws.ecm_size _ _ _ _ _ _ _ _ _))
configuration-Consistent t (suc (suc index)) laws h = absurd (omega arith)

-- The device descriptor announces as many configurations as are answered: for each index below that
-- number there is one, which says its own length, its two interfaces and its number, and from that
-- number on there is none. Every string that the descriptors name is answered. TinyUSB's macros expand
-- as documented.
pub device-Consistent :
    (t : Macros) (desc_string : ℕ) (board_id mac : Bytes)
    → MacroLaws t
    → (let d = desc_device t in
        let string = tud_descriptor_string_cb desc_string board_id mac in
        ((index : ℕ)
          → index < d.b_num_configurations
          → (bytes : Bytes) × (answers t index ≡ some bytes) × Consistent index bytes)
        × ((index : ℕ) → d.b_num_configurations ≤ index → answers t index ≡ none)
        × (string d.i_manufacturer ≢ none)
        × (string d.i_product ≢ none)
        × (string d.i_serial_number ≢ none)
        × (string strid_interface ≢ none)
        × (string strid_mac ≢ none))
unfolding desc_device tud_descriptor_configuration_cb tud_descriptor_string_cb
device-Consistent t desc_string board_id mac laws = (
  (λ index h. configuration-Consistent t index laws h),
  (λ index h. rw (le→ltb index 2 h) refl),
  (λ e. cc),
  (λ e. cc),
  (λ e. cc),
  (λ e. cc),
  λ e. cc,
)
