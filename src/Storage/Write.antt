-- ===== src/Storage/Write.antt =====
-- `storage_write` and `storage_clear` as a whole: what success means, and what a failure leaves.
use roman_firmware.Prelude.{
  ℕ, ◌+◌, ◌≤◌, ◌<◌, ◌≡◌, refl, ap, ◌∙◌, ◌⊎◌, inl, inr, Bool, true, false, ◌||◌, Option, none, some,
  slice, write_at, ◌++◌, arith, Bytes, length, length-append, length-replicate, replicate,
  Bool-cases, ltb, ◌==◌,
}
use roman_firmware.Diag.{boxing, entropy, diag_stage}
use roman_firmware.Storage.Randomness.{randombytes, length-randombytes}
use roman_firmware.Storage.{
  Crypto, Hardware, Store, staged, commit, finish_write, write_with, storage_write, storage_writen,
  storage_read, storage_section_nonce, staged_header, marker,
}
use roman_firmware.Storage.Assumptions.{CryptoLaws, HardwareLaws}
use roman_firmware.Storage.Layout.{staged-IsRecord, box_once}
use roman_firmware.Storage.ReadBack.{record-writen, record-read}

-- The sector after an erase.
abbrev pub IsErased : Bytes → Type 0
IsErased flash = flash ≡ replicate 4096 0xFF

length-pad : (buf : Bytes) (n : ℕ) → length (buf ++ replicate n 0xFF) ≡ length buf + n
length-pad buf n =
    length-append buf (replicate n 0xFF)
    ∙ ap (λ (k : ℕ). length buf + k) (length-replicate {A = ℕ} n 0xFF)

-- The sector with a record in its first two pages.
abbrev pub programmed : Bytes → Bytes
programmed buf = buf ++ replicate 3584 0xFF

module _ (c : Crypto) (hw : Hardware) (hl : HardwareLaws hw) where
  -- One call of `flash_safe_execute`, either way.
  pub execute_cases :
      (f : Bytes → Bytes) (flash : Bytes)
      → ((hw.flash_safe_execute f flash).0 ≡ true) × ((hw.flash_safe_execute f flash).1 ≡ f flash)
        ⊎ ((hw.flash_safe_execute f flash).0 ≡ false) × ((hw.flash_safe_execute f flash).1 ≡ flash)
  execute_cases f flash = elim (Bool-cases (hw.flash_safe_execute f flash).0) [
    | inl ran ↦ inl (
      ran,
      hl.executed f flash (hw.flash_safe_execute f flash).1
          (λ i. (ran i, (hw.flash_safe_execute f flash).1)),
    )
    | inr not_ran ↦ inr (
      not_ran,
      hl.refused f flash (hw.flash_safe_execute f flash).1
          (λ i. (not_ran i, (hw.flash_safe_execute f flash).1)),
    )
  ]

  -- What `commit` leaves: the record on success, else the old sector or an erased one.
  commit_flash :
      (buf : Bytes) (st : Store)
      → length st.flash ≡ 4096
      → length buf ≡ 512
      → ((commit c hw buf st).0 ≡ true) × ((commit c hw buf st).1.flash ≡ programmed buf)
        ⊎ ((commit c hw buf st).0 ≡ false)
          × (((commit c hw buf st).1.flash ≡ st.flash) ⊎ IsErased (commit c hw buf st).1.flash)
  unfolding commit
  commit_flash buf st size size' =
      let erase = hw.flash_safe_execute hw.flash_range_erase st.flash in
      let program = hw.flash_safe_execute (hw.flash_range_program buf) erase.1 in
      elim (execute_cases hw.flash_range_erase st.flash) [
        | inr (not_erased, same) ↦ rw (not_erased, commit) (inr (refl, inl same))
        | inl (erased, blank) ↦
            let blank' : IsErased erase.1 = blank ∙ hl.erases st.flash size in
            elim (execute_cases (hw.flash_range_program buf) erase.1) [
              | inr (not_programmed, same) ↦
                  rw (erased, not_programmed, commit) (inr (refl, inr (same ∙ blank')))
              | inl (ok, full) ↦
                  rw (erased, ok, commit)
                    (inl
                      (refl, full ∙ ap (hw.flash_range_program buf) blank' ∙ hl.programs buf size'))
            ]
      ]

module _ (c : Crypto) (laws : CryptoLaws c) (hw : Hardware) (hl : HardwareLaws hw) (src : Bytes)
    (pos : 0 < length src) (small : length src ≤ 232) where
  -- What a client of the store sees after a write that reported success, or one that failed.
  abbrev Outcome : Bool → Bytes → Bytes → Type 0
  Outcome ok before after =
      (ok ≡ true)
        × (storage_writen after ≡ true)
        × ((cap : ℕ) → length src ≤ cap → storage_read c after cap ≡ src)
        × (length after ≡ 4096)
      ⊎ (ok ≡ false) × ((after ≡ before) ⊎ IsErased after)

  finish-Outcome :
      (nonce pk sk : Bytes) (o : Option Bytes) (st : Store)
      → staged c src nonce pk sk ≡ o
      → length nonce ≡ 24
      → length pk ≡ 32
      → length sk ≡ 32
      → length st.flash ≡ 4096
      → Outcome (finish_write c hw o st).0 st.flash (finish_write c hw o st).1.flash
  unfolding finish_write
  finish-Outcome nonce pk sk none st e hn hp hs size = inr (refl, inl refl)
  finish-Outcome nonce pk sk (some buf) st e hn hp hs size =
      let (box, boxed, r) = staged-IsRecord c src nonce pk sk buf laws pos small hn hp hs e in
      elim (commit_flash c hw hl buf st size r.size) [
        | inr (failed, left) ↦ inr (failed, left)
        | inl (ok, flash) ↦
            let tail : Bytes = replicate 3584 0xFF in
            inl (
              ok,
              rw flash (record-writen c laws src nonce pk sk box buf tail pos small boxed r),
              rw flash (record-read c laws src nonce pk sk box buf tail pos small boxed r),
              rw flash (length-pad buf 3584 ∙ ap (λ (k : ℕ). k + 3584) r.size),
            )
      ]

  with-Outcome :
      (keys : Option (Bytes × Bytes)) (st : Store)
      → ((pk sk : Bytes) → keys ≡ some (pk, sk) → (length pk ≡ 32) × (length sk ≡ 32))
      → length st.flash ≡ 4096
      → Outcome (write_with c hw src keys st).0 st.flash (write_with c hw src keys st).1.flash
  unfolding write_with
  with-Outcome none st sized size = inr (refl, inl refl)
  with-Outcome (some (pk, sk)) st sized size =
      let (hp, hs) = sized pk sk refl in
      let nonce = (randombytes hw.entropy 24 st.random).0 in
      finish-Outcome nonce pk sk (staged c src nonce pk sk) _ refl
        (length-randombytes hw.entropy 24 st.random) hp hs size

  write-Outcome :
      (st : Store)
      → length st.flash ≡ 4096
      → Outcome (storage_write c hw src st).0 st.flash (storage_write c hw src st).1.flash
  unfolding storage_write
  write-Outcome st size =
      let accepted : (length src == 0 || ltb 232 (length src)) ≡ false = ground arith in
      rw (accepted, storage_write) (with-Outcome _ _ (λ pk sk e. laws.keypair_size _ pk sk e) size)

-- A write of 1 to 232 bytes either reports success, and then the stored flag is set and the payload
-- reads back whole into any buffer that has room for it, or reports failure, and then the sector is
-- what it was or is erased.
pub read-write :
    (c : Crypto) (hw : Hardware) (src : Bytes) (st : Store)
    → CryptoLaws c
    → HardwareLaws hw
    → 0 < length src
    → length src ≤ 232
    → length st.flash ≡ 4096
    → (let (ok, st') = storage_write c hw src st in
        (ok ≡ true)
          × (storage_writen st'.flash ≡ true)
          × ((cap : ℕ) → length src ≤ cap → storage_read c st'.flash cap ≡ src)
          × (length st'.flash ≡ 4096)
        ⊎ (ok ≡ false) × ((st'.flash ≡ st.flash) ⊎ IsErased st'.flash))
read-write c hw src st laws hl pos small size = write-Outcome c laws hw hl src pos small st size

-- crypto_box returns 0 on every message behind the 32 zero bytes that it asks for.
abbrev pub Boxes : Crypto → Type 0
Boxes c = (x n p s : Bytes) → (out : Bytes) × (c.crypto_box (replicate 32 0 ++ x) n p s ≡ some out)

pub staged_total :
    (c : Crypto) (src nonce pk sk : Bytes)
    → 0 < length src
    → length src ≤ 232
    → Boxes c
    → (buf : Bytes) × (staged c src nonce pk sk ≡ some buf)
unfolding staged
staged_total c src nonce pk sk pos small boxes =
    let (box, e) = boxes src (storage_section_nonce nonce 0) pk sk in
    let n = length src in
    (
      write_at 504 marker (write_at 256 (slice 16 (16 + n) box) (staged_header c nonce pk sk n)),
      rw (box_once c src nonce pk sk pos small (staged_header c nonce pk sk n), e),
    )

commit_total :
    (c : Crypto) (hw : Hardware) (buf : Bytes) (st : Store)
    → ((f : Bytes → Bytes) (flash : Bytes) → (hw.flash_safe_execute f flash).0 ≡ true)
    → (commit c hw buf st).0 ≡ true
unfolding commit
commit_total c hw buf st runs =
    let erase = hw.flash_safe_execute hw.flash_range_erase st.flash in
    rw (runs hw.flash_range_erase st.flash, runs (hw.flash_range_program buf) erase.1, commit)

with_total :
    (c : Crypto) (hw : Hardware) (src : Bytes) (keys : Bytes × Bytes) (st : Store)
    → 0 < length src
    → length src ≤ 232
    → Boxes c
    → ((f : Bytes → Bytes) (flash : Bytes) → (hw.flash_safe_execute f flash).0 ≡ true)
    → (write_with c hw src (some keys) st).0 ≡ true
unfolding write_with finish_write
with_total c hw src (pk, sk) st pos small boxes runs =
    let nonce = (randombytes hw.entropy 24 st.random).0 in
    let (buf, e) = staged_total c src nonce pk sk pos small boxes in
    let random = (randombytes hw.entropy 24 st.random).1 in
    let st' : Store = record st { random = random; scratch = diag_stage boxing } in
    rw (e, finish_write) (commit_total c hw buf st' runs)

-- Where crypto_box_keypair returns 0, crypto_box returns 0 on every message behind 32 zero bytes, and
-- the flash callbacks run, a write of 1 to 232 bytes succeeds. A write of nothing or of more fails and
-- changes nothing.
pub write_total :
    (c : Crypto) (hw : Hardware) (src : Bytes) (st : Store)
    → ((seed : Bytes) → (keys : Bytes × Bytes) × (c.crypto_box_keypair seed ≡ some keys))
    → Boxes c
    → ((f : Bytes → Bytes) (flash : Bytes) → (hw.flash_safe_execute f flash).0 ≡ true)
    → (0 < length src → length src ≤ 232 → (storage_write c hw src st).0 ≡ true)
      × (length src ≡ 0 → storage_write c hw src st ≡ (false, st))
      × (232 < length src → storage_write c hw src st ≡ (false, st))
write_total c hw src st keys boxes runs = (
  λ pos small.
      let accepted : (length src == 0 || ltb 232 (length src)) ≡ false = ground arith in
      let seed = (randombytes hw.entropy 32 st.random).0 in
      let (pair, e) = keys seed in
      unfold storage_write in
      rw (accepted, e, storage_write)
        (with_total c hw src pair
          (record st {
            random = (randombytes hw.entropy 32 st.random).1;
            scratch = diag_stage entropy;
          })
          pos small boxes runs),
  λ empty.
      let refused : (length src == 0 || ltb 232 (length src)) ≡ true = ground arith in
      unfold storage_write in rw (refused, storage_write),
  λ large.
      let refused : (length src == 0 || ltb 232 (length src)) ≡ true = ground arith in
      unfold storage_write in rw (refused, storage_write),
)
