-- ===== src/Dhcp/Options.antt =====
-- The options of a message: the search loop of `opt_find`, as its rounds.
use roman_firmware.Prelude.{
  ℕ, zero, suc, ◌+◌, ◌*◌, ◌≤◌, ◌<◌, ◌≡◌, ◌≢◌, inl, inr, not, ◌&&◌, Option, none, some, arith, Bytes,
  get_or, ltb, ◌==◌, if◌then◌else◌, Bool-cases,
}
use roman_firmware.Dhcp.{opt_find_from, opt_find}

-- `Scan opt cmd i r`: the loop, with no bound on its rounds, entered at index `i`, returns `r`.
pub data Scan (opt : Bytes) (cmd : ℕ) : ℕ → Option ℕ → Type 0 where
  past : (i : ℕ) → 308 ≤ i → Scan opt cmd i none
  end : (i : ℕ) → i < 308 → get_or opt i 0 ≡ 255 → Scan opt cmd i none
  found : (i : ℕ) → i < 308 → get_or opt i 0 ≢ 255 → get_or opt i 0 ≡ cmd → Scan opt cmd i (some i)
  next :
      (i : ℕ) (r : Option ℕ)
      → i < 308
      → get_or opt i 0 ≢ 255
      → get_or opt i 0 ≢ cmd
      → Scan opt cmd (i + (2 + get_or opt (i + 1) 0)) r
      → Scan opt cmd i r

round_lem :
    (opt : Bytes) (cmd i : ℕ) (r : Option ℕ)
    → Scan opt cmd (i + (2 + get_or opt (i + 1) 0)) r
    → Scan opt cmd i (
        if ltb i 308 && not (get_or opt i 0 == 255)
        then (if get_or opt i 0 == cmd then some i else r)
        else none)
round_lem opt cmd i r later = elim (Bool-cases (ltb i 308)) [
  | inr out ↦ rw out (past i (ground arith))
  | inl inside ↦ elim (Bool-cases (get_or opt i 0 == 255)) [
    | inl last ↦ rw (inside, last) (end i (ground arith) (ground arith))
    | inr more ↦ elim (Bool-cases (get_or opt i 0 == cmd)) [
      | inl same ↦
          rw (inside, more, same) (found i (ground arith) (λ e. ground arith) (ground arith))
      | inr other ↦
          rw (inside, more, other)
            (next i r (ground arith) (λ e. ground arith) (λ e. ground arith) later)
    ]
  ]
]

opt_find_from-Scan :
    (fuel : ℕ) (opt : Bytes) (cmd i : ℕ)
    → 308 ≤ i + 2 * fuel
    → Scan opt cmd i (opt_find_from fuel opt cmd i)
unfolding opt_find_from
opt_find_from-Scan zero opt cmd i h = past i (omega arith)
opt_find_from-Scan (suc fuel) opt cmd i h =
    round_lem opt cmd i _ (opt_find_from-Scan fuel opt cmd _ (omega arith))

-- The loop ends on every message, also one whose lengths point anywhere, with what `opt_find` returns.
pub opt_find-Scan : (opt : Bytes) (cmd : ℕ) → Scan opt cmd 0 (opt_find opt cmd)
unfolding opt_find
opt_find-Scan opt cmd = opt_find_from-Scan 155 opt cmd 0 (omega arith)
