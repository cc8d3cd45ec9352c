-- ===== src/Storage/Layout.antt =====
-- The staged record has the layout that storage.c documents.
use roman_firmware.Prelude.{
  ℕ, suc, ◌+◌, ◌-◌, ◌*◌, ◌≤◌, ◌<◌, ◌≡◌, refl, sym, ap, ◌∙◌, true, false, Option, some, [], ◌∷◌,
  ◌++◌, arith, Bytes, length, length-replicate, slice, replicate, take-all, write_at,
  length-write_at, slice-write_self, slice-write_before, bind-eq-some, subst, length-slice, ltb,
  le→ltb, lt→ltb, ◌>>=◌,
}
use Prim.Native.Nat.{min}
use mathlib.Core.Path.{fun_ext}
use roman_firmware.Storage.Assumptions.{CryptoLaws}
use roman_firmware.Storage.{
  Crypto, magic, marker, le32, from_le32, storage_section_nonce, box_sections, staged_header,
  staged,
}

pub from_le32-le32 : (n : ℕ) → n < 4294967296 → from_le32 (le32 n) ≡ n
unfolding from_le32 le32
from_le32-le32 n h = omega arith

-- What the 512 bytes hold, for a payload of `n` bytes with the sealed section `sealed`.
pub record IsRecord (n : ℕ) (nonce pk sk sealed buf : Bytes) : Type 0 where
  pub size : length buf ≡ 512
  pub has_magic : slice 0 4 buf ≡ magic
  pub has_len : slice 4 4 buf ≡ le32 n
  pub has_nonce : slice 12 24 buf ≡ nonce
  pub has_pk : slice 36 32 buf ≡ pk
  pub has_sk : slice 68 32 buf ≡ sk
  pub has_section : slice 256 (16 + n) buf ≡ sealed
  pub has_marker : slice 504 4 buf ≡ marker

length-le32 : (n : ℕ) → length (le32 n) ≡ 4
unfolding le32
length-le32 n = refl

module _ (nonce pk sk sealed fill : Bytes) (n : ℕ) (nonce_len : length nonce ≡ 24)
    (pk_len : length pk ≡ 32) (sk_len : length sk ≡ 32) (sealed_len : length sealed ≡ 16 + n)
    (small : n ≤ 232) (room : length fill ≡ 512) where
  abbrev w0 : Bytes
  w0 = write_at 0 magic fill

  abbrev w1 : Bytes
  w1 = write_at 4 (le32 n) w0

  abbrev w2 : Bytes
  w2 = write_at 8 (1 ∷ []) w1

  abbrev w3 : Bytes
  w3 = write_at 12 nonce w2

  abbrev w4 : Bytes
  w4 = write_at 36 pk w3

  abbrev w5 : Bytes
  w5 = write_at 68 sk w4

  abbrev w6 : Bytes
  w6 = write_at 256 sealed w5

  abbrev w7 : Bytes
  w7 = write_at 504 marker w6

  len0 : length w0 ≡ 512
  len0 = length-write_at 0 magic fill ∙ room

  len1 : length w1 ≡ 512
  len1 = length-write_at 4 (le32 n) w0 ∙ len0

  len2 : length w2 ≡ 512
  len2 = length-write_at 8 (1 ∷ []) w1 ∙ len1

  len3 : length w3 ≡ 512
  len3 = length-write_at 12 nonce w2 ∙ len2

  len4 : length w4 ≡ 512
  len4 = length-write_at 36 pk w3 ∙ len3

  len5 : length w5 ≡ 512
  len5 = length-write_at 68 sk w4 ∙ len4

  len6 : length w6 ≡ 512
  len6 = length-write_at 256 sealed w5 ∙ len5

  -- Below 256 the two last writes change nothing.
  low : (i k : ℕ) → i + k ≤ 256 → slice i k w7 ≡ slice i k w5
  low i k h =
      slice-write_before i k 504 marker w6 (omega arith) ∙ slice-write_before i k 256 sealed w5 h

  IsRecord-writes : IsRecord n nonce pk sk sealed w7
  IsRecord-writes = record {
    size = length-write_at 504 marker w6 ∙ len6;
    has_magic =
        low 0 4 (omega arith)
        ∙ slice-write_before 0 4 68 sk w4 (omega arith)
        ∙ slice-write_before 0 4 36 pk w3 (omega arith)
        ∙ slice-write_before 0 4 12 nonce w2 (omega arith)
        ∙ slice-write_before 0 4 8 (1 ∷ []) w1 (omega arith)
        ∙ slice-write_before 0 4 4 (le32 n) w0 (omega arith)
        ∙ slice-write_self 0 4 magic fill refl (omega arith);
    has_len =
        low 4 4 (omega arith)
        ∙ slice-write_before 4 4 68 sk w4 (omega arith)
        ∙ slice-write_before 4 4 36 pk w3 (omega arith)
        ∙ slice-write_before 4 4 12 nonce w2 (omega arith)
        ∙ slice-write_before 4 4 8 (1 ∷ []) w1 (omega arith)
        ∙ slice-write_self 4 4 (le32 n) w0 (length-le32 n) (omega (arith, len0));
    has_nonce =
        low 12 24 (omega arith)
        ∙ slice-write_before 12 24 68 sk w4 (omega arith)
        ∙ slice-write_before 12 24 36 pk w3 (omega arith)
        ∙ slice-write_self 12 24 nonce w2 nonce_len (omega (arith, len2));
    has_pk =
        low 36 32 (omega arith)
        ∙ slice-write_before 36 32 68 sk w4 (omega arith)
        ∙ slice-write_self 36 32 pk w3 pk_len (omega (arith, len3));
    has_sk = low 68 32 (omega arith) ∙ slice-write_self 68 32 sk w4 sk_len (omega (arith, len4));
    has_section =
        slice-write_before 256 (16 + n) 504 marker w6 (omega arith)
        ∙ slice-write_self 256 (16 + n) sealed w5 sealed_len (omega (arith, len5));
    has_marker = slice-write_self 504 4 marker w6 refl (omega (arith, len6));
  }

module _ (c : Crypto) (src nonce pk sk : Bytes) (some_bytes : 0 < length src)
    (small : length src ≤ 232) where
  box_round :
      (fuel i pos chunk : ℕ) (buf : Bytes)
      → ltb (i * 256) (length src) ≡ true
      → min (length src - i * 256) 256 ≡ chunk
      → box_sections c src nonce pk sk (suc fuel) i pos buf ≡ (do
        box ←
            c.crypto_box
              (replicate 32 0 ++ slice (i * 256) chunk src)
              (storage_section_nonce nonce i)
              pk
              sk
        box_sections c src nonce pk sk fuel
            (i + 1)
            (pos + (16 + chunk))
            (write_at pos (slice 16 (16 + chunk) box) buf))
  unfolding box_sections
  box_round fuel i pos chunk buf h e = rw (← e, h, box_sections)

  box_stop :
      (fuel i pos : ℕ) (buf : Bytes)
      → ltb (i * 256) (length src) ≡ false
      → box_sections c src nonce pk sk (suc fuel) i pos buf ≡ some buf
  unfolding box_sections
  box_stop fuel i pos buf h = rw (h, box_sections)

  -- A payload of at most 232 bytes is one section: the loop makes one round.
  pub box_once :
      (buf : Bytes)
      → box_sections c src nonce pk sk (length src + 1) 0 256 buf ≡ (do
        box ← c.crypto_box (replicate 32 0 ++ src) (storage_section_nonce nonce 0) pk sk
        some (write_at 256 (slice 16 (16 + length src) box) buf))
  box_once buf =
      let enough : length src + 1 ≡ suc (suc (length src - 1)) = omega arith in
      rw
        (
          enough,
          box_round (suc (length src - 1)) 0 256 (length src) buf (lt→ltb 0 (length src) some_bytes)
              (omega arith),
          take-all (length src) src refl,
        )
        (ap
          (λ (k : Bytes → Option Bytes).
            c.crypto_box (replicate 32 0 ++ src) (storage_section_nonce nonce 0) pk sk >>= k)
          (fun_ext λ box. box_stop (length src - 1) 1 _ _ (le→ltb 256 (length src) (omega arith))))

-- What `staged` makes, if the boxing succeeds: the layout, around the box of the payload.
pub staged-IsRecord :
    (c : Crypto) (src nonce pk sk buf : Bytes)
    → CryptoLaws c
    → 0 < length src
    → length src ≤ 232
    → length nonce ≡ 24
    → length pk ≡ 32
    → length sk ≡ 32
    → staged c src nonce pk sk ≡ some buf
    → (box : Bytes) × (c.crypto_box (replicate 32 0 ++ src) (storage_section_nonce nonce 0) pk sk
        ≡ some box)
      × IsRecord (length src) nonce pk sk (slice 16 (16 + length src) box) buf
unfolding staged
staged-IsRecord c src nonce pk sk buf laws pos small hn hp hs h =
    let n = length src in
    let header = staged_header c nonce pk sk n in
    let (mid, e, done) = bind-eq-some (box_sections c src nonce pk sk (n + 1) 0 256 header) _ h in
    let (box, boxed, written) =
      bind-eq-some (c.crypto_box (replicate 32 0 ++ src) (storage_section_nonce nonce 0) pk sk) _
        (sym (box_once c src nonce pk sk pos small header) ∙ e) in
    let (size, _, _) = laws.box_opens src (storage_section_nonce nonce 0) pk sk box boxed in
    let sealed = slice 16 (16 + n) box in
    let shape : write_at 504 marker (write_at 256 sealed header) ≡ buf = cc in
    (
      box,
      boxed,
      subst (IsRecord n nonce pk sk sealed) shape (
          unfold staged_header in
          IsRecord-writes nonce pk sk sealed (replicate 512 0xFF) n hn hp hs
            (length-slice 16 (16 + n) box (omega arith)) small (length-replicate {A = ℕ} 512 0xFF)),
    )
