-- ===== src/Storage/PowerCut.antt =====
-- Power lost while `storage_write` programs the record: `flash_range_program` walks the buffer in
-- ascending order, so the sector then holds the first `n` bytes of the buffer, and is erased behind.
use roman_firmware.Prelude.{
  ℕ, zero, suc, ◌+◌, ◌-◌, ◌≤◌, ◌<◌, ◌≡◌, refl, ap, ◌∙◌, true, [], ◌∷◌, ◌++◌, arith, Bytes, length,
  length-take, length-append, some, false, take, slice, get_or, replicate, bytes_eq→eq,
  slice-append_less, slice-take, not-true, leb→le, leb-false→lt, inl, inr, Bool-cases, leb,
}
use roman_firmware.Storage.{Crypto, marker, storage_writen, storage_read, storage_section_nonce}
use roman_firmware.Storage.Assumptions.{CryptoLaws}
use roman_firmware.Storage.ReadBack.{landed-read}
use roman_firmware.Storage.Layout.{IsRecord}

-- The sector when `n` of the 512 bytes have landed.
abbrev pub cut_at : ℕ → Bytes → Bytes
cut_at n buf = take n buf ++ replicate (4096 - n) 0xFF

get_or-slice :
    (i n k j : ℕ) (xs : Bytes) → i + k ≡ j → k < n → get_or (slice i n xs) k 0 ≡ get_or xs j 0
get_or-slice zero zero k j xs e h = absurd (omega arith)
get_or-slice zero (suc n) k j [] e h = refl
get_or-slice zero (suc n) zero zero (x ∷ xs) e h = refl
get_or-slice zero (suc n) zero (suc j) (x ∷ xs) e h = absurd (omega arith)
get_or-slice zero (suc n) (suc k) zero (x ∷ xs) e h = absurd (omega arith)
get_or-slice zero (suc n) (suc k) (suc j) (x ∷ xs) e h =
    get_or-slice zero n k j xs (omega arith) (omega arith)
get_or-slice (suc i) zero k j [] e h = refl
get_or-slice (suc i) (suc n) k j [] e h = refl
get_or-slice (suc i) n k zero (x ∷ xs) e h = absurd (omega arith)
get_or-slice (suc i) n k (suc j) (x ∷ xs) e h = get_or-slice i n k j xs (omega arith) h

-- The byte at 507, the last of the marker, is still erased if it has not landed.
erased_byte :
    (n m : ℕ) (xs : Bytes)
    → length xs ≤ n
    → n < length xs + m
    → get_or (xs ++ replicate m 0xFF) n 0 ≡ 0xFF
erased_byte n zero [] h h' = absurd (omega arith)
erased_byte zero (suc m) [] h h' = refl
erased_byte (suc n) (suc m) [] h h' = erased_byte n m [] (omega arith) (omega arith)
erased_byte zero m (x ∷ xs) h h' = absurd (omega arith)
erased_byte (suc n) m (x ∷ xs) h h' = erased_byte n m xs (omega arith) (omega arith)

-- What has landed reads as in the buffer.
slice-cut :
    (i k n : ℕ) (buf : Bytes)
    → n ≤ length buf
    → i + k ≤ n
    → slice i k (cut_at n buf) ≡ slice i k buf
slice-cut i k n buf le h =
    slice-append_less i k (take n buf) (replicate (4096 - n) 0xFF)
      (omega (arith, length-take n buf))
    ∙ slice-take i k n buf h

missing_marker :
    (n : ℕ) (buf : Bytes) → n < 508 → n ≤ length buf → ¬ (storage_writen (cut_at n buf) ≡ true)
unfolding storage_writen
missing_marker n buf short le e =
    let blank =
      erased_byte 507 (4096 - n) (take n buf) (omega (arith, length-take n buf))
        (omega (arith, length-take n buf)) in
    let byte = get_or-slice 504 4 3 507 (cut_at n buf) refl (omega arith) in
    let same = bytes_eq→eq (slice 504 4 (cut_at n buf)) marker e in
    absurd (omega (arith, blank, byte, ap (λ (xs : Bytes). get_or xs 3 0) same))

-- The stored flag after a power cut is set exactly if all of the marker has landed.
pub writen-cut :
    (len n : ℕ) (nonce pk sk sealed buf : Bytes)
    → IsRecord len nonce pk sk sealed buf
    → n ≤ 512
    → storage_writen (cut_at n buf) ≡ leb 508 n
unfolding storage_writen
writen-cut len n nonce pk sk sealed buf r h = elim (Bool-cases (leb 508 n)) [
  | inl landed ↦
      rw (landed, slice-cut 504 4 n buf (omega (arith, r.size)) (leb→le 508 n landed), r.has_marker)
        refl
  | inr missing ↦
      let short : n < 508 = leb-false→lt 508 n missing in
      rw missing (
        not-true (storage_writen (cut_at n buf))
          (missing_marker n buf short (omega (arith, r.size))))
]

-- The record of a payload of 1 to 232 bytes whose box has landed, but not all of the marker behind it,
-- is read in full by storage_read, though the flag is not set. TweetNaCl behaves as assumed.
pub read-torn :
    (c : Crypto) (n : ℕ) (src nonce pk sk box buf : Bytes)
    → CryptoLaws c
    → 0 < length src
    → length src ≤ 232
    → c.crypto_box (replicate 32 0 ++ src) (storage_section_nonce nonce 0) pk sk ≡ some box
    → IsRecord (length src) nonce pk sk (slice 16 (16 + length src) box) buf
    → 272 + length src ≤ n
    → n < 508
    → (storage_writen (cut_at n buf) ≡ false)
      × ((cap : ℕ) → length src ≤ cap → storage_read c (cut_at n buf) cap ≡ src)
read-torn c n src nonce pk sk box buf laws pos small boxed r sealed missing =
    let le : n ≤ length buf = omega (arith, r.size) in
    (
      not-true (storage_writen (cut_at n buf)) (missing_marker n buf missing le),
      landed-read c laws src nonce pk sk box buf (cut_at n buf) pos small boxed r
          (omega (arith, length-append (take n buf) (replicate (4096 - n) 0xFF), length-take n buf))
          (λ i k h. slice-cut i k n buf le (omega arith)),
    )
