-- ===== src/Storage/Randomness.antt =====
-- `randombytes` of storage.c and what it rests on, on a board with the hardware TRNG
-- (STORAGE_HAS_TRNG 1).
pub mod Waiting
use Prim.Native.Nat.{bit_xor, bit_or}
use roman_firmware.Prelude.{
  ℕ, zero, suc, ◌+◌, ◌*◌, ◌/◌, ◌%◌, ◌^◌, ◌≡◌, refl, ap, Bool, true, false, Option, none, some, [],
  ◌∷◌, ◌++◌, Bytes, length, take, leb, not, ◌==◌, if◌then◌else◌,
}

-- The TRNG during one call of `trng_sample`: whether it is busy in each round of the wait loop, the
-- round from which on `time_reached(deadline)` holds, and the two data words.
pub record Trng : Type 0 where
  pub trng_busy : ℕ → Bool
  pub timeout : ℕ
  pub ehr_data : ℕ × ℕ

-- What the hardware answers during an operation: the TRNG in the n-th call of `trng_sample`, the
-- bootrom's random words, the board id and the microsecond timer.
pub record Entropy : Type 0 where
  pub trng : ℕ → Trng
  pub boot_random : Option (ℕ × ℕ × ℕ × ℕ)
  pub board_id : Bytes
  pub time_us : ℕ

-- The wait loop from round `k` on: whether it is left with a sample. `none` is a fuel that runs out.
unfoldable pub trng_wait : ℕ → ℕ → Trng → Option Bool
trng_wait zero k t = none
trng_wait (suc fuel) k t =
    let later = trng_wait fuel (suc k) t in
    if not (t.trng_busy k) then some true else if leb t.timeout k then some false else later

-- The rounds up to the deadline are enough.
unfoldable pub trng_sample : Trng → Option (ℕ × ℕ)
unfolding trng_wait
trng_sample t = elim (trng_wait (t.timeout + 1) 0 t) [
  | none ↦ none
  | some answered ↦ if answered then some t.ehr_data else none
]

-- The three static variables, and how many samples have been asked for.
pub record Random : Type 0 where
  pub rand_state : ℕ
  pub rand_seeded : Bool
  pub rand_trng_seen : Bool
  pub samples : ℕ

abbrev pub golden : ℕ
golden = 0x9E3779B97F4A7C15

unfoldable pub mix64 : ℕ → ℕ
mix64 x0 =
    let x1 = (x0 + golden) % 2 ^ 64 in
    let x2 = bit_xor x1 (x1 / 2 ^ 30) * 0xBF58476D1CE4E5B9 % 2 ^ 64 in
    let x3 = bit_xor x2 (x2 / 2 ^ 27) * 0x94D049BB133111EB % 2 ^ 64 in bit_xor x3 (x3 / 2 ^ 31)

-- A result of 32 bits, and the new state.
unfoldable pub splitmix32 : Random → ℕ × Random
unfolding mix64
splitmix32 r =
    let s = (r.rand_state + golden) % 2 ^ 64 in
    (mix64 s / 2 ^ 32 % 2 ^ 32, record r { rand_state = s })

-- (uint64_t)hi << 32 | lo
unfoldable pub join : ℕ → ℕ → ℕ
join hi lo = bit_or (hi * 2 ^ 32) lo

-- id = (id << 8) | b for each byte
unfoldable pub id_number : ℕ → Bytes → ℕ
id_number id [] = id
id_number id (b ∷ rest) = id_number (bit_or (id * 2 ^ 8 % 2 ^ 64) b) rest

boot_mix : Option (ℕ × ℕ × ℕ × ℕ) → ℕ → ℕ
unfolding mix64 join
boot_mix none seed = seed
boot_mix (some (w0, w1, w2, w3)) seed =
    bit_xor (bit_xor seed (mix64 (join w1 w0))) (mix64 (join w3 w2))

unfoldable pub rand_seed : Entropy → Random → Random
unfolding boot_mix id_number
rand_seed e r =
    if r.rand_seeded
    then r
    else let seed =
        bit_xor (boot_mix e.boot_random 0x524F4D414E) (mix64 (id_number 0 e.board_id)) in
      let seed = bit_xor seed (mix64 e.time_us) in
      record r { rand_state = if seed == 0 then golden else seed; rand_seeded = true }

-- Folds the next sample, if there is one, into the state.
unfoldable pub fold_sample : Option (ℕ × ℕ) → Random → Random
unfolding join mix64
fold_sample none r = record r { samples = r.samples + 1 }
fold_sample (some (w0, w1)) r = record r {
  rand_state = bit_xor r.rand_state (mix64 (join w1 w0));
  rand_trng_seen = true;
  samples = r.samples + 1;
}

unfoldable pub rand_next : Entropy → Random → ℕ × Random
unfolding rand_seed fold_sample splitmix32
rand_next e r =
    let r' = rand_seed e r in splitmix32 (fold_sample (trng_sample (e.trng r'.samples)) r')

-- Whether the TRNG answered.
answered : Option (ℕ × ℕ) → Bool
answered none = false
answered (some w) = true

unfoldable pub storage_trng_probe : Entropy → Random → Bool × Random
unfolding rand_seed fold_sample answered
storage_trng_probe e r =
    let r' = rand_seed e r in
    let sample = trng_sample (e.trng r'.samples) in (answered sample, fold_sample sample r')

unfoldable pub word_bytes : ℕ → Bytes
word_bytes w = w % 256 ∷ w / 2 ^ 8 % 256 ∷ w / 2 ^ 16 % 256 ∷ w / 2 ^ 24 % 256 ∷ []

-- Whole words first, then the leading bytes of one more.
unfoldable pub randombytes : Entropy → ℕ → Random → Bytes × Random
unfolding rand_next word_bytes
randombytes e zero r = ([], r)
randombytes e (suc (suc (suc (suc n)))) r =
    let (w, r') = rand_next e r in
    let (rest, r'') = randombytes e n r' in (word_bytes w ++ rest, r'')
randombytes e n r = let (w, r') = rand_next e r in (take n (word_bytes w), r')

pub length-randombytes : (e : Entropy) (n : ℕ) (r : Random) → length (randombytes e n r).0 ≡ n
unfolding randombytes
length-randombytes e zero r = refl
length-randombytes e (suc zero) r = refl
length-randombytes e (suc (suc zero)) r = refl
length-randombytes e (suc (suc (suc zero))) r = refl
length-randombytes e (suc (suc (suc (suc n)))) r =
    ap (λ k. suc (suc (suc (suc k)))) (length-randombytes e n (rand_next e r).1)
