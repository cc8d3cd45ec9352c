-- ===== src/Usb/Address.antt =====
-- The two addresses on the USB link.
use Prim.Native.Nat.{bit_and, bit_or, bit_xor}
use roman_firmware.Prelude.{
  ℕ, ◌/◌, ◌%◌, ◌<◌, ◌≡◌, ◌≢◌, refl, true, ◌&&◌, not, [], ◌∷◌, arith, length, get_or, take, passes,
  passes-each, ◌==◌, &&-split, ==_iff,
}
use roman_firmware.Usb.{mac_of, hwaddr_of}

-- The first byte is unicast and locally administered.
first_byte_table :
    passes (λ x. let y = bit_or (bit_and x 0xFE) 0x02 in y % 2 == 0 && y / 2 % 2 == 1) 256 ≡ true
unfolding passes
first_byte_table = refl

last_byte_table : passes (λ x. not (bit_xor x 0x01 == x)) 256 ≡ true
unfolding passes
last_byte_table = refl

-- For every eight bytes of a board id, of which the third and the last are below 256: the device's
-- address has six bytes, is unicast and locally administered; the interface's address differs from it,
-- and in the last byte only.
pub mac-hwaddr :
    (b0 b1 b2 b3 b4 b5 b6 b7 : ℕ)
    → b2 < 256
    → b7 < 256
    → (let mac = mac_of (b0 ∷ b1 ∷ b2 ∷ b3 ∷ b4 ∷ b5 ∷ b6 ∷ b7 ∷ []) in
        let hwaddr = hwaddr_of mac in
        (length mac ≡ 6)
        × (get_or mac 0 0 % 2 ≡ 0)
        × (get_or mac 0 0 / 2 % 2 ≡ 1)
        × (length hwaddr ≡ 6)
        × (take 5 hwaddr ≡ take 5 mac)
        × (get_or hwaddr 5 0 ≢ get_or mac 5 0))
unfolding mac_of hwaddr_of
mac-hwaddr b0 b1 b2 b3 b4 b5 b6 b7 h2 h7 =
    let (unicast, local) = &&-split _ _ (passes-each _ {x = b2} 256 h2 first_byte_table) in
    let differs = passes-each (λ x. not (bit_xor x 0x01 == x)) {x = b7} 256 h7 last_byte_table in
    (refl, (==_iff _ _).0 unicast, (==_iff _ _).0 local, refl, refl, λ same. ground arith)
