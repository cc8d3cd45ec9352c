-- ===== src/Stack/Watermark.antt =====
-- The counters of a run against what its checks saw.
use roman_firmware.Prelude.{
  ℕ, zero, suc, ◌+◌, ◌-◌, ◌≤◌, ◌<◌, ◌≡◌, ◌≢◌, refl, ◌∙◌, true, some, List, [], ◌∷◌, ◌++◌, arith,
  Bytes, drop, replicate, length, get_or, ltb, ◌==◌, Bool-cases, inl, inr,
}
use roman_firmware.Stack.{
  Stack, paint, paint_slack, ram_bytes, scan, stack_watermark, raise_max, stack_check, stack_init,
  stack_total, stack_used_max, stack_free_min,
}

-- The checks of a run: before each of them the program has left the stack as the next element of
-- `ms`.
unfoldable pub watch : List Bytes → Stack → Stack
watch [] s = s
watch (m ∷ ms) s = watch ms (stack_check (record s { ram = m }))

scan-bound :
    (size : ℕ) (bytes : Bytes) (value i : ℕ)
    → i < size
    → get_or bytes i value ≢ value
    → scan size bytes value ≤ i
unfolding scan
scan-bound zero bytes value i h ne = elim h [ ]
scan-bound (suc size) [] value i h ne = omega arith
scan-bound (suc size) (x ∷ bytes) value zero h ne = elim (Bool-cases (x == value)) [
  | inl same ↦ absurd (ne (ground arith))
  | inr other ↦ rw other (omega arith)
]
scan-bound (suc size) (x ∷ bytes) value (suc i) h ne = elim (Bool-cases (x == value)) [
  | inl same ↦ rw same (grind (arith, scan-bound size bytes value i (omega arith) ne))
  | inr other ↦ rw other (omega arith)
]

-- What a counter is at least and at most.
abbrev Counts : ℕ → Stack → Stack → Type 0
Counts used s t =
    (t.painted ≡ s.painted)
    × (t.used_max ≤ ram_bytes)
    × (s.used_max ≤ t.used_max)
    × (used ≤ t.used_max)

raise_max-Counts :
    (used : ℕ) (s : Stack)
    → used ≤ ram_bytes
    → s.used_max ≤ ram_bytes
    → Counts used s (raise_max used s)
unfolding raise_max
raise_max-Counts used s h k = elim (Bool-cases (ltb s.used_max used)) [
  | inl more ↦ rw more (refl, h, ground arith, omega arith)
  | inr less ↦ rw less (refl, k, omega arith, ground arith)
]

check-Counts :
    (s : Stack)
    → s.painted ≡ true
    → s.used_max ≤ ram_bytes
    → Counts (ram_bytes - stack_watermark (some s.ram) ram_bytes paint) s (stack_check s)
unfolding stack_check
check-Counts s p h =
    let (same, bound, above, seen) =
      raise_max-Counts (ram_bytes - stack_watermark (some s.ram) ram_bytes paint) s (omega arith)
        h in
    simp p (same ∙ p, bound, above, seen)

watch-Counts :
    (ms : List Bytes) (k : ℕ) (s : Stack)
    → s.painted ≡ true
    → s.used_max ≤ ram_bytes
    → (let t = watch ms s in
        (t.used_max ≤ ram_bytes)
        × (s.used_max ≤ t.used_max)
        × (k < length ms
            → ram_bytes - stack_watermark (some (get_or ms k [])) ram_bytes paint ≤ t.used_max))
unfolding watch
watch-Counts [] k s p h = (h, omega arith, λ out. elim out [ ])
watch-Counts (m ∷ ms) zero s p h =
    let (painted, bound, above, seen) = check-Counts (record s { ram = m }) p h in
    let (bound_, above_, _) =
      watch-Counts ms zero (stack_check (record s { ram = m })) (painted ∙ p) bound in
    (bound_, omega arith, λ _. omega arith)
watch-Counts (m ∷ ms) (suc k) s p h =
    let (painted, bound, above, seen) = check-Counts (record s { ram = m }) p h in
    let (bound_, above_, later) =
      watch-Counts ms k (stack_check (record s { ram = m })) (painted ∙ p) bound in
    (bound_, omega arith, λ inside. later (omega arith))

watermark-bound :
    (bytes : Bytes) (i : ℕ)
    → i < ram_bytes
    → get_or bytes i paint ≢ paint
    → stack_watermark (some bytes) ram_bytes paint ≤ i
unfolding stack_watermark
watermark-bound bytes i h ne = scan-bound ram_bytes bytes paint i h ne

-- Whatever the checks after stack_init see: the two counters add up to the size of the stack, and a
-- byte of it that a check saw without paint, byte `i` at check `k`, lies at or above the smallest
-- headroom.
pub free_min_lem :
    (frame : ℕ) (s : Stack) (ms : List Bytes) (k i : ℕ)
    → k < length ms
    → i < ram_bytes
    → get_or (get_or ms k []) i paint ≢ paint
    → (let t = watch ms (stack_init frame s) in
        (stack_used_max t + stack_free_min t ≡ stack_total) × (stack_free_min t ≤ i))
unfolding stack_init stack_used_max stack_free_min
free_min_lem frame s ms k i h inside ne =
    let (painted, bound, _, _) =
      check-Counts
        (record {
          ram = replicate (frame - paint_slack) paint ++ drop (frame - paint_slack) s.ram;
          used_max = 0;
          painted = true;
        })
        refl (omega arith) in
    let (bound_, _, later) = watch-Counts ms k (stack_init frame s) painted bound in
    let seen = later h in
    let low = watermark-bound (get_or ms k []) i inside ne in (ground arith, ground arith)
