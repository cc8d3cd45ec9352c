-- ===== src/Storage/Tests.antt =====
-- The store's theorems on a board with a blank flash.
use roman_firmware.Prelude.{
  ℕ, ◌≤◌, ◌<◌, ◌≡◌, refl, ◌⊎◌, true, false, none, some, ◌++◌, codes, arith, Bytes, length,
  length-replicate, replicate, slice, leb,
}
use roman_firmware.Bench.{plain_box, plain_box_laws, good_flash, good_flash_laws, blank_store}
use roman_firmware.Storage.Randomness.{Trng, trng_sample}
use roman_firmware.Storage.Randomness.Waiting.{trng_sample-Ends}
use roman_firmware.Bench.{quiet}
use roman_firmware.Storage.{storage_write, storage_writen, storage_read, storage_section_nonce}
use roman_firmware.Storage.Layout.{IsRecord, staged-IsRecord}
use roman_firmware.Storage.Write.{IsErased, read-write, write_total, staged_total}
use roman_firmware.Storage.PowerCut.{cut_at, writen-cut, read-torn}

abbrev hello : Bytes
hello = codes "hello"

read-write_example :
    (let (ok, st') = storage_write plain_box good_flash hello blank_store in
      (ok ≡ true)
        × (storage_writen st'.flash ≡ true)
        × ((cap : ℕ) → length hello ≤ cap → storage_read plain_box st'.flash cap ≡ hello)
        × (length st'.flash ≡ 4096)
      ⊎ (ok ≡ false) × ((st'.flash ≡ blank_store.flash) ⊎ IsErased st'.flash))
read-write_example =
    read-write plain_box good_flash hello blank_store plain_box_laws good_flash_laws (omega arith)
      (omega arith) (length-replicate {A = ℕ} 4096 0xFF)

write_total_example :
    (0 < length hello
      → length hello ≤ 232
      → (storage_write plain_box good_flash hello blank_store).0 ≡ true)
    × (length hello ≡ 0
        → storage_write plain_box good_flash hello blank_store ≡ (false, blank_store))
    × (232 < length hello
        → storage_write plain_box good_flash hello blank_store ≡ (false, blank_store))
write_total_example =
    write_total plain_box good_flash hello blank_store
      (λ seed. ((replicate 32 1, replicate 32 2), refl)) (λ m n p s. (_, refl)) (λ f flash. refl)

-- The staged record of a payload.
hello_buf : Bytes
hello_buf =
    (staged_total plain_box hello (replicate 24 3) (replicate 32 1) (replicate 32 2) (omega arith)
      (omega arith) (λ m n p s. (_, refl))).0

hello-IsRecord :
    (box : Bytes) × (plain_box.crypto_box
        (replicate 32 0 ++ hello)
        (storage_section_nonce (replicate 24 3) 0)
        (replicate 32 1)
        (replicate 32 2)
      ≡ some box)
    × IsRecord 5 (replicate 24 3) (replicate 32 1) (replicate 32 2) (slice 16 21 box) hello_buf
unfolding hello_buf
hello-IsRecord =
    let total =
      staged_total plain_box hello (replicate 24 3) (replicate 32 1) (replicate 32 2) (omega arith)
        (omega arith) (λ m n p s. (_, refl)) in
    staged-IsRecord plain_box hello (replicate 24 3) (replicate 32 1) (replicate 32 2) total.0
      plain_box_laws (omega arith) (omega arith) refl refl refl total.1

writen-cut_example : storage_writen (cut_at 500 hello_buf) ≡ leb 508 500
writen-cut_example =
    writen-cut 5 500 (replicate 24 3) (replicate 32 1) (replicate 32 2)
      (slice 16 21 hello-IsRecord.0) hello_buf hello-IsRecord.2 (omega arith)

read-torn_example :
    (storage_writen (cut_at 500 hello_buf) ≡ false)
    × ((cap : ℕ) → length hello ≤ cap → storage_read plain_box (cut_at 500 hello_buf) cap ≡ hello)
read-torn_example =
    read-torn plain_box 500 hello (replicate 24 3) (replicate 32 1) (replicate 32 2)
      hello-IsRecord.0 hello_buf plain_box_laws (omega arith) (omega arith) hello-IsRecord.1
      hello-IsRecord.2 (omega arith) (omega arith)

-- The TRNG is busy for three rounds.
abbrev waking : Trng
waking = quiet.trng 0

waking_sample : trng_sample waking ≡ some (0, 7)
unfolding trng_sample
waking_sample = refl

trng_sample-Ends_example :
    (trng_sample waking ≡ some waking.ehr_data)
      × ((n : ℕ) × (n ≤ waking.timeout)
          × (waking.trng_busy n ≡ false)
          × ((j : ℕ) → j < n → waking.trng_busy j ≡ true))
    ⊎ (trng_sample waking ≡ none) × ((j : ℕ) → j ≤ waking.timeout → waking.trng_busy j ≡ true)
trng_sample-Ends_example = trng_sample-Ends waking
