-- ===== src/Storage/Randomness/Waiting.antt =====
-- The wait for the TRNG ends.
use roman_firmware.Prelude.{
  ℕ, zero, suc, ◌+◌, ◌≤◌, ◌<◌, ◌≡◌, refl, subst, ◌⊎◌, inl, inr, Bool, true, false, Option, none,
  some, arith, leb, leb→le, leb-false→lt, Bool-cases,
}
use roman_firmware.Storage.Randomness.{Trng, trng_wait, trng_sample}

-- From round `k` on: the first round that is not busy comes in time, or every round is busy until the
-- deadline.
abbrev pub Ends : ℕ → Trng → Option Bool → Type 0
Ends k t answer =
    (answer ≡ some true)
      × ((n : ℕ) × (k ≤ n)
          × (n ≤ t.timeout)
          × (t.trng_busy n ≡ false)
          × ((j : ℕ) → k ≤ j → j < n → t.trng_busy j ≡ true))
    ⊎ (answer ≡ some false) × ((j : ℕ) → k ≤ j → j ≤ t.timeout → t.trng_busy j ≡ true)

-- A round is busy if round `k` is, and it is when it comes later.
from_next :
    (t : Trng) (k j : ℕ)
    → t.trng_busy k ≡ true
    → k ≤ j
    → (suc k ≤ j → t.trng_busy j ≡ true)
    → t.trng_busy j ≡ true
from_next t k j busy le later = elim (Bool-cases (leb (suc k) j)) [
  | inl more ↦ later (leb→le (suc k) j more)
  | inr same ↦
      let at : k ≡ j = omega (arith, leb-false→lt (suc k) j same) in
      subst (λ n. t.trng_busy n ≡ true) at busy
]

wait-Ends :
    (fuel k : ℕ) (t : Trng) → k ≤ t.timeout → t.timeout < fuel + k → Ends k t (trng_wait fuel k t)
unfolding trng_wait
wait-Ends zero k t h e = absurd (omega arith)
wait-Ends (suc fuel) k t h e = elim (Bool-cases (t.trng_busy k)) [
  | inr idle ↦
      rw (idle, trng_wait) (inl (refl, (k, omega arith, h, idle, λ j le lt. absurd (omega arith))))
  | inl busy ↦ elim (Bool-cases (leb t.timeout k)) [
    | inl late ↦
        let last : t.timeout ≤ k = leb→le t.timeout k late in
        rw (busy, late, trng_wait)
          (inr (refl, λ j le in_time. from_next t k j busy le (λ more. absurd (omega arith))))
    | inr early ↦
        rw (busy, early, trng_wait)
          (elim (wait-Ends fuel (suc k) t (leb-false→lt t.timeout k early) (omega arith)) [
            | inl (sample, (n, le, in_time, idle, before)) ↦ inl (
              sample,
              (
                n,
                omega arith,
                in_time,
                idle,
                λ j le' lt. from_next t k j busy le' (λ more. before j more lt),
              ),
            )
            | inr (none_, all) ↦
                inr (none_, λ j le in_time. from_next t k j busy le (λ more. all j more in_time))
          ])
  ]
]

-- The TRNG is waited for no longer than the deadline: the call gives up exactly if every round up to
-- it was busy, and otherwise returns the data words, after the first round that was not.
pub trng_sample-Ends :
    (t : Trng)
    → (trng_sample t ≡ some t.ehr_data)
        × ((n : ℕ) × (n ≤ t.timeout)
            × (t.trng_busy n ≡ false)
            × ((j : ℕ) → j < n → t.trng_busy j ≡ true))
      ⊎ (trng_sample t ≡ none) × ((j : ℕ) → j ≤ t.timeout → t.trng_busy j ≡ true)
unfolding trng_sample
trng_sample-Ends t = elim (wait-Ends (t.timeout + 1) 0 t (omega arith) (omega arith)) [
  | inl (sample, (n, le, in_time, idle, before)) ↦
      inl (rw (sample, trng_sample) refl, (n, in_time, idle, λ j lt. before j (omega arith) lt))
  | inr (nothing, all) ↦
      inr (rw (nothing, trng_sample) refl, λ j in_time. all j (omega arith) in_time)
]
