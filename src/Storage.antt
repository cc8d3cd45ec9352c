-- ===== src/Storage.antt =====
-- The encrypted flash store, storage.c and storage.h.
--
-- `flash` is the 4 KB sector at STORAGE_FLASH_OFFSET, `scratch` the watchdog register of diag.c. What
-- the code calls is a parameter: `Crypto` for tweetnacl.c, `Hardware` for the SDK's flash calls and
-- for the random words of one operation. `flash_safe_execute` returns whether it ran the callback
-- (PICO_OK), and the sector afterwards.
pub mod Randomness
pub mod Layout
pub mod ReadBack
pub mod Write
pub mod PowerCut
pub mod Assumptions
pub mod Tests
use Prim.Native.Nat.{bit_xor, min}
use roman_firmware.Prelude.{
  ℕ, zero, suc, ◌+◌, ◌-◌, ◌*◌, ◌/◌, ◌%◌, ◌^◌, Bool, true, false, not, ◌&&◌, ◌||◌, Option, none,
  some, List, [], ◌∷◌, ◌++◌, Bytes, codes, length, get_or, take, drop, slice, replicate, write_at,
  bytes_eq, leb, ltb, ◌==◌, if◌then◌else◌, ◌>>=◌,
}
use roman_firmware.Diag
use roman_firmware.Diag.{diag_stage}
use roman_firmware.Storage.Randomness.{Entropy, Random, randombytes}

-- tweetnacl.c, which is TweetNaCl's. A result other than 0 is `none`.
pub record Crypto : Type 0 where
  -- crypto_box(c, m, mlen, n, pk, sk) and crypto_box_open, on buffers with 32 leading bytes
  pub crypto_box : Bytes → Bytes → Bytes → Bytes → Option Bytes
  pub crypto_box_open : Bytes → Bytes → Bytes → Bytes → Option Bytes
  -- crypto_box_keypair(pk, sk), from the 32 random bytes that it draws
  pub crypto_box_keypair : Bytes → Option (Bytes × Bytes)
  -- crypto_verify_32(x, y) == 0
  pub crypto_verify_32 : Bytes → Bytes → Bool
  -- crypto_sign(sm, &smlen, m, mlen, sk)
  pub crypto_sign : Bytes → Bytes → Bytes

pub record Hardware : Type 0 where
  pub flash_range_erase : Bytes → Bytes
  pub flash_range_program : Bytes → Bytes → Bytes
  pub flash_safe_execute : (Bytes → Bytes) → Bytes → Bool × Bytes
  pub entropy : Entropy

pub record Store : Type 0 where
  pub flash : Bytes
  pub random : Random
  pub scratch : ℕ

abbrev pub max_payload : ℕ
max_payload = 232

abbrev pub magic : Bytes
magic = codes "ROMN"

abbrev pub marker : Bytes
marker = codes "DONE"

abbrev pub section_size : ℕ
section_size = 256

abbrev pub section_off : ℕ
section_off = 256

abbrev pub box_overhead : ℕ
box_overhead = 16

abbrev pub marker_off : ℕ
marker_off = 504

abbrev pub total_bytes : ℕ
total_bytes = 512

-- A uint32_t in memory, little endian.
unfoldable pub le32 : ℕ → Bytes
le32 n = n % 256 ∷ n / 256 % 256 ∷ n / 65536 % 256 ∷ n / 16777216 % 256 ∷ []

unfoldable pub from_le32 : Bytes → ℕ
from_le32 b = get_or b 0 0 + get_or b 1 0 * 256 + get_or b 2 0 * 65536 + get_or b 3 0 * 16777216

-- out[16 + b] ^= (uint8_t)(idx >> (b * 8)), for b from `b` on
unfoldable pub nonce_tail : ℕ → ℕ → Bytes → Bytes
nonce_tail idx b [] = []
nonce_tail idx b (x ∷ xs) = bit_xor x (idx / 2 ^ (b * 8) % 256) ∷ nonce_tail idx (b + 1) xs

unfoldable pub storage_section_nonce : Bytes → ℕ → Bytes
unfolding nonce_tail
storage_section_nonce base idx = take 16 base ++ nonce_tail idx 0 (slice 16 8 base)

unfoldable pub storage_writen : Bytes → Bool
unfolding bytes_eq
storage_writen flash = bytes_eq (slice marker_off 4 flash) marker

unfoldable pub stored_len : Bytes → ℕ
unfolding from_le32
stored_len flash = from_le32 (slice 4 4 flash)

unfoldable pub storage_available : Bytes → Bool
unfolding stored_len bytes_eq
storage_available flash =
    if not (bytes_eq (slice 0 4 flash) magic)
    then false
    else ltb 0 (stored_len flash) && leb (stored_len flash) max_payload

unfoldable pub storage_x25519_pk : Bytes → Option Bytes
unfolding storage_available
storage_x25519_pk flash = if not (storage_available flash) then none else some (slice 0x24 32 flash)

module _ (c : Crypto) where
  -- The loop of `storage_read` at section `i` and flash position `pos`. `none` is a failed
  -- authentication; the fuel is the number of rounds allowed.
  unfoldable pub open_sections : Bytes → ℕ → ℕ → ℕ → ℕ → Option Bytes
  unfolding storage_section_nonce
  open_sections flash len zero i pos = none
  open_sections flash len (suc fuel) i pos = elim (ltb (i * section_size) len) [
    | false ↦ some []
    | true ↦ do
      let chunk = min (len - i * section_size) section_size
      m ←
          c.crypto_box_open
            (replicate 16 0
              ++ (slice pos box_overhead flash ++ slice (pos + box_overhead) chunk flash))
            (storage_section_nonce (slice 0x0C 24 flash) i) (slice 0x24 32 flash)
            (slice 0x44 32 flash)
      rest ← open_sections flash len fuel (i + 1) (pos + (box_overhead + chunk))
      some (slice 32 chunk m ++ rest)
  ]

  or_empty : Option Bytes → Bytes
  or_empty none = []
  or_empty (some bytes) = bytes

  -- `storage_read(dst, cap)`: the plaintext, whose length is returned; [] stands for the result 0.
  -- Every round takes at least one byte of `len`, so `len + 1` rounds are enough.
  unfoldable pub storage_read : Bytes → ℕ → Bytes
  unfolding open_sections or_empty
  storage_read flash cap =
      if not (storage_available flash)
      then []
      else let len = min (stored_len flash) cap in
        or_empty (open_sections flash len (len + 1) 0 section_off)

  -- The loop of `storage_write`, on the staging buffer.
  unfoldable pub box_sections : Bytes → Bytes → Bytes → Bytes → ℕ → ℕ → ℕ → Bytes → Option Bytes
  unfolding storage_section_nonce write_at
  box_sections src nonce pk sk zero i pos buf = none
  box_sections src nonce pk sk (suc fuel) i pos buf = elim (ltb (i * section_size) (length src)) [
    | false ↦ some buf
    | true ↦ do
      let off = i * section_size
      let chunk = min (length src - off) section_size
      box ←
          c.crypto_box (replicate 32 0 ++ slice off chunk src) (storage_section_nonce nonce i) pk sk
      box_sections src nonce pk sk fuel (i + 1) (pos + (box_overhead + chunk))
          (write_at pos (slice 16 (box_overhead + chunk) box) buf)
  ]

  -- page 0 of `storage_buf` on the erased fill
  unfoldable pub staged_header : Bytes → Bytes → Bytes → ℕ → Bytes
  unfolding write_at le32
  staged_header nonce pk sk len =
      let buf = write_at 0 magic (replicate total_bytes 0xFF) in
      let buf = write_at 4 (le32 len) buf in
      let buf = write_at 8 (1 ∷ []) buf in
      let buf = write_at 0x0C nonce buf in let buf = write_at 0x24 pk buf in write_at 0x44 sk buf

  -- `storage_buf` as it is programmed: the marker goes in last.
  unfoldable pub staged : Bytes → Bytes → Bytes → Bytes → Option Bytes
  unfolding staged_header box_sections
  staged src nonce pk sk = do
    let header = staged_header nonce pk sk (length src)
    buf ← box_sections src nonce pk sk (length src + 1) 0 section_off header
    some (write_at marker_off marker buf)

  module _ (hw : Hardware) where
    -- From the erase on: `storage_write` after the record has been staged.
    unfoldable pub commit : Bytes → Store → Bool × Store
    unfolding diag_stage
    commit buf st =
        let (erased, flash) = hw.flash_safe_execute hw.flash_range_erase st.flash in
        if not erased
        then (false, record st { flash = flash; scratch = diag_stage Diag.erase })
        else let (programmed, flash') = hw.flash_safe_execute (hw.flash_range_program buf) flash in
          (programmed, record st { flash = flash'; scratch = diag_stage Diag.program })

    finish_write : Option Bytes → Store → Bool × Store
    unfolding commit
    finish_write none st = (false, st)
    finish_write (some buf) st = commit buf st

    -- The rest of `storage_write` once the key pair is there; a failing `crypto_box_keypair` ends it.
    unfoldable pub write_with : Bytes → Option (Bytes × Bytes) → Store → Bool × Store
    unfolding staged finish_write randombytes
    write_with src none st = (false, st)
    write_with src (some (pk, sk)) st =
        let (nonce, random) = randombytes hw.entropy 24 st.random in
        let st' = record st { random = random; scratch = diag_stage Diag.boxing } in
        finish_write (staged src nonce pk sk) st'

    unfoldable pub storage_write : Bytes → Store → Bool × Store
    unfolding write_with
    storage_write src st =
        if length src == 0 || ltb max_payload (length src)
        then (false, st)
        else let (seed, random) = randombytes hw.entropy 32 st.random in
          write_with src (c.crypto_box_keypair seed)
            (record st { random = random; scratch = diag_stage Diag.entropy })

-- `storage_clear()`
unfoldable pub storage_clear : Hardware → Store → Bool × Store
storage_clear hw st =
    let (erased, flash) = hw.flash_safe_execute hw.flash_range_erase st.flash in
    (erased, record st { flash = flash })
