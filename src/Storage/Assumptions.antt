-- ===== src/Storage/Assumptions.antt =====
-- What the store relies on: the documented behaviour of NaCl's `crypto_box` and `crypto_verify_32`,
-- and of the SDK's flash calls.
use roman_firmware.Prelude.{
  ◌+◌, ◌≡◌, true, false, some, ◌++◌, Bytes, length, take, replicate, bytes_eq,
}
use roman_firmware.Storage.{Crypto, Hardware}

pub record CryptoLaws (c : Crypto) : Type 0 where
  -- A message behind 32 zero bytes is boxed behind 16 zero bytes, and opens to what it was.
  pub box_opens :
      (x n pk sk out : Bytes)
      → c.crypto_box (replicate 32 0 ++ x) n pk sk ≡ some out
      → (length out ≡ 32 + length x)
        × (take 16 out ≡ replicate 16 0)
        × (c.crypto_box_open out n pk sk ≡ some (replicate 32 0 ++ x))
  pub keypair_size :
      (seed pk sk : Bytes)
      → c.crypto_box_keypair seed ≡ some (pk, sk)
      → (length pk ≡ 32) × (length sk ≡ 32)
  pub verify_compares : (x y : Bytes) → c.crypto_verify_32 x y ≡ bytes_eq (take 32 x) (take 32 y)

pub record HardwareLaws (hw : Hardware) : Type 0 where
  -- The callback ran, and PICO_OK was returned; or it did not run.
  pub executed :
      (f : Bytes → Bytes) (flash flash' : Bytes)
      → hw.flash_safe_execute f flash ≡ (true, flash')
      → flash' ≡ f flash
  pub refused :
      (f : Bytes → Bytes) (flash flash' : Bytes)
      → hw.flash_safe_execute f flash ≡ (false, flash')
      → flash' ≡ flash
  pub erases :
      (flash : Bytes) → length flash ≡ 4096 → hw.flash_range_erase flash ≡ replicate 4096 0xFF
  -- Programming two pages of an erased sector puts the data there and leaves the rest erased.
  pub programs :
      (buf : Bytes)
      → length buf ≡ 512
      → hw.flash_range_program buf (replicate 4096 0xFF) ≡ buf ++ replicate 3584 0xFF
