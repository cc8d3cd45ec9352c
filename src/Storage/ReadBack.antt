-- ===== src/Storage/ReadBack.antt =====
-- What `storage_write` stored, `storage_read` reads back.
use Prim.Native.Nat.{min}
use roman_firmware.Prelude.{
  ℕ, suc, ◌+◌, ◌-◌, ◌*◌, ◌≤◌, ◌<◌, ◌≡◌, refl, sym, ap, ◌∙◌, true, false, some, [], ◌++◌, arith,
  Bytes, length, length-append, drop, slice, slice_join, slice-append_less, replicate, take-all,
  take-append-drop, length-drop, append-nil, ltb, le→leb, le→ltb, lt→ltb, ◌>>=◌,
}
use roman_firmware.Storage.{
  Crypto, stored_len, storage_section_nonce, storage_available, storage_writen, open_sections,
  storage_read,
}
use roman_firmware.Storage.Assumptions.{CryptoLaws}
use roman_firmware.Storage.Layout.{IsRecord, from_le32-le32}

module _ (c : Crypto) (flash : Bytes) (len : ℕ) where
  open_round :
      (fuel i pos chunk : ℕ)
      → ltb (i * 256) len ≡ true
      → min (len - i * 256) 256 ≡ chunk
      → open_sections c flash len (suc fuel) i pos ≡ (do
        m ←
            c.crypto_box_open
              (replicate 16 0 ++ (slice pos 16 flash ++ slice (pos + 16) chunk flash))
              (storage_section_nonce (slice 12 24 flash) i)
              (slice 36 32 flash)
              (slice 68 32 flash)
        rest ← open_sections c flash len fuel (i + 1) (pos + (16 + chunk))
        some (slice 32 chunk m ++ rest))
  unfolding open_sections
  open_round fuel i pos chunk h e = rw (← e, h, open_sections)

  open_stop :
      (fuel i pos : ℕ)
      → ltb (i * 256) len ≡ false
      → open_sections c flash len (suc fuel) i pos ≡ some []
  unfolding open_sections
  open_stop fuel i pos h = rw (h, open_sections)

-- The 32 zero bytes, the payload: what the box opens to.
slice_payload : (src : Bytes) → slice 32 (length src) (replicate 32 0 ++ src) ++ [] ≡ src
slice_payload src = append-nil _ ∙ take-all (length src) src refl

-- A sector in which the record has landed as far as the end of its box.
module _ (c : Crypto) (laws : CryptoLaws c) (src nonce pk sk box buf flash : Bytes)
    (pos : 0 < length src) (small : length src ≤ 232)
    (boxed : c.crypto_box (replicate 32 0 ++ src) (storage_section_nonce nonce 0) pk sk ≡ some box)
    (r : IsRecord (length src) nonce pk sk (slice 16 (16 + length src) box) buf)
    (long : 272 + length src ≤ length flash)
    (within : (i n : ℕ) → i + n ≤ 272 + length src → slice i n flash ≡ slice i n buf) where
  landed-stored_len : stored_len flash ≡ length src
  unfolding stored_len
  landed-stored_len =
      rw (within 4 4 (omega arith), r.has_len) (from_le32-le32 (length src) (omega arith))

  pub landed-available : storage_available flash ≡ true
  unfolding storage_available
  landed-available =
      rw (within 0 4 (omega arith), r.has_magic)
        (rw (landed-stored_len, lt→ltb 0 (length src) pos, le→leb (length src) 232 small))

  -- The box in flash behind 16 zero bytes is the box that was made.
  sealed_box : replicate 16 0 ++ (slice 256 16 flash ++ slice 272 (length src) flash) ≡ box
  sealed_box =
      let (size, zeros, _) = laws.box_opens src (storage_section_nonce nonce 0) pk sk box boxed in
      let n = length src in
      let whole : slice 16 (16 + n) box ≡ drop 16 box =
        take-all (16 + n) (drop 16 box) (omega (arith, length-drop 16 box)) in
      rw
        (
          slice_join 256 16 n 272 (16 + n) flash refl refl (omega (arith, long)),
          within 256 (16 + n) (omega arith),
          r.has_section,
          whole,
        )
        (ap (λ z. z ++ drop 16 box) (sym zeros) ∙ take-append-drop 16 box)

  opens_payload : open_sections c flash (length src) (length src + 1) 0 256 ≡ some src
  opens_payload =
      let n = length src in
      let (_, _, opened) = laws.box_opens src (storage_section_nonce nonce 0) pk sk box boxed in
      let enough : n + 1 ≡ suc (suc (n - 1)) = omega arith in
      rw
        (
          enough,
          open_round c flash n (suc (n - 1)) 0 256 n (lt→ltb 0 n pos) (omega arith),
          sealed_box,
          within 12 24 (omega arith),
          within 36 32 (omega arith),
          within 68 32 (omega arith),
          r.has_nonce,
          r.has_pk,
          r.has_sk,
          opened,
          open_stop c flash n (n - 1) 1 (256 + (16 + n)) (le→ltb 256 n (omega arith)),
        )
        (ap some (slice_payload src))

  pub landed-read : (cap : ℕ) → length src ≤ cap → storage_read c flash cap ≡ src
  unfolding storage_read
  landed-read cap fits =
      let whole : min (length src) cap ≡ length src = omega arith in
      rw (landed-available, landed-stored_len, whole, opens_payload)

-- The same where the whole buffer has landed, with the flag.
module _ (c : Crypto) (laws : CryptoLaws c) (src nonce pk sk box buf tail : Bytes)
    (pos : 0 < length src) (small : length src ≤ 232)
    (boxed : c.crypto_box (replicate 32 0 ++ src) (storage_section_nonce nonce 0) pk sk ≡ some box)
    (r : IsRecord (length src) nonce pk sk (slice 16 (16 + length src) box) buf) where
  within_all : (i n : ℕ) → i + n ≤ 512 → slice i n (buf ++ tail) ≡ slice i n buf
  within_all i n h = slice-append_less i n buf tail (omega (arith, r.size))

  long_enough : 272 + length src ≤ length (buf ++ tail)
  long_enough = omega (arith, length-append buf tail, r.size)

  pub record-writen : storage_writen (buf ++ tail) ≡ true
  unfolding storage_writen
  record-writen = rw (within_all 504 4 (omega arith), r.has_marker)

  pub record-available : storage_available (buf ++ tail) ≡ true
  record-available =
      landed-available c laws src nonce pk sk box buf (buf ++ tail) pos small boxed r long_enough
        (λ i n h. within_all i n (omega arith))

  pub record-read : (cap : ℕ) → length src ≤ cap → storage_read c (buf ++ tail) cap ≡ src
  record-read =
      landed-read c laws src nonce pk sk box buf (buf ++ tail) pos small boxed r long_enough
        (λ i n h. within_all i n (omega arith))
