-- ===== src/Usb/Bringup.antt =====
-- The interface is brought up, and what is sent on it.
use roman_firmware.Prelude.{
  ℕ, ◌≤◌, ◌≡◌, refl, arith, Bool, true, false, length, slice, slice-write_self, length-write_at,
  ◌&&◌, some, Bytes,
}
use roman_firmware.Usb.{Network, is_up, tud_network_xmit_cb, usb_network_init}

-- The wait for the interface ends at its first test: the call returns, with success exactly if TinyUSB
-- and lwIP accept the set-up; the interface is then up and added.
pub init-Up :
    (tud_init netif_add : Bool) (net_mtu : ℕ) (board_id : Bytes) (n : Network)
    → (n' : Network) × (usb_network_init tud_init netif_add net_mtu board_id n
        ≡ some (tud_init && netif_add, n'))
      × (tud_init && netif_add ≡ true → (is_up n'.flags ≡ true) × (n'.netif_added ≡ true))
unfolding usb_network_init is_up
init-Up false netif_add net_mtu board_id n = (_, refl, λ e. cc)
init-Up true false net_mtu board_id n = (_, refl, λ e. cc)
init-Up true true net_mtu board_id n = (_, refl, λ e. (refl, refl))

-- What TinyUSB copies of a frame that fits: the whole of it.
pub xmit-Whole :
    (p dst : Bytes)
    → length p ≤ length dst
    → (let (len, dst') = tud_network_xmit_cb p dst in
        (len ≡ length p) × (slice 0 len dst' ≡ p) × (length dst' ≡ length dst))
unfolding tud_network_xmit_cb
xmit-Whole p dst h =
    (refl, slice-write_self 0 (length p) p dst refl (omega arith), length-write_at 0 p dst)
