-- ===== src/Led/Patterns.antt =====
-- What the LED shows after a signature has been signalled.
use roman_firmware.Prelude.{
  ℕ, zero, suc, ◌+◌, ◌≤◌, ◌≡◌, refl, subst, sym, ◌⊎◌, inl, inr, Bool, true, ◌||◌, List, [], ◌∷◌,
  arith, ◌==◌, if◌then◌else◌, Bool-cases,
}
use roman_firmware.Led.{Led, ready, signing, Timer, led_step, led_tick, led_signal_signing}

-- The calls of led_tick between two signals, each at a time and with what gpio_get would return.
unfoldable pub run : Timer → List (ℕ × Bool) → Led → Led
run t [] s = s
run t ((now, level) ∷ calls) s = run t calls (led_tick t now level s)

-- How many of them come when the toggle is due.
unfoldable pub due : Timer → List (ℕ × Bool) → Led → ℕ
due t [] s = 0
due t ((now, level) ∷ calls) s =
    (if t.time_reached now s.next_toggle then 1 else 0) + due t calls (led_tick t now level s)

-- The state of a signing pattern that has been due `n` times: two blinks, and ready from the fifth
-- time on.
abbrev pub Shown : ℕ → Led → Type 0
Shown n s =
    ((next : ℕ) × (n ≤ 4)
      × (s ≡ record {
        current_pattern = signing;
        pattern_step = n;
        next_toggle = next;
        pin = (n == 2) || (n == 4);
      }))
    ⊎ ((next step : ℕ) × (5 ≤ n)
        × (s ≡ record {
          current_pattern = ready;
          pattern_step = step;
          next_toggle = next;
          pin = true;
        }))

blink-Shown :
    (t : Timer) (now next n : ℕ) (level : Bool)
    → n ≤ 4
    → Shown (n + 1) (
        led_step t now level signing (record {
          current_pattern = signing;
          pattern_step = n;
          next_toggle = next;
          pin = (n == 2) || (n == 4);
        }))
unfolding led_step
blink-Shown t now next zero level h = inl (_, omega arith, refl)
blink-Shown t now next (suc zero) level h = inl (_, omega arith, refl)
blink-Shown t now next (suc (suc zero)) level h = inl (_, omega arith, refl)
blink-Shown t now next (suc (suc (suc zero))) level h = inl (_, omega arith, refl)
blink-Shown t now next (suc (suc (suc (suc zero)))) level h = inr (_, _, omega arith, refl)
blink-Shown t now next (suc (suc (suc (suc (suc n))))) level h = absurd (omega arith)

step-Shown :
    (t : Timer) (now n : ℕ) (level : Bool) (s : Led)
    → Shown n s
    → Shown (n + 1) (led_step t now level s.current_pattern s)
unfolding led_step
step-Shown t now n level s (inl (next, h, e)) =
    subst (λ s. Shown (n + 1) (led_step t now level s.current_pattern s)) (sym e)
      (blink-Shown t now next n level h)
step-Shown t now n level s (inr (next, step, h, e)) =
    subst (λ s. Shown (n + 1) (led_step t now level s.current_pattern s)) (sym e)
      (inr (_, _, omega arith, refl))

-- A call when the toggle is due counts; another changes nothing.
tick-Shown :
    (t : Timer) (now n : ℕ) (level : Bool) (s : Led)
    → Shown n s
    → Shown (n + (if t.time_reached now s.next_toggle then 1 else 0)) (led_tick t now level s)
unfolding led_tick
tick-Shown t now n level s shown = elim (Bool-cases (t.time_reached now s.next_toggle)) [
  | inl reached ↦ rw reached (step-Shown t now n level s shown)
  | inr early ↦ rw early (subst (λ k. Shown k s) (omega arith) shown)
]

run-Shown :
    (t : Timer) (calls : List (ℕ × Bool)) (n : ℕ) (s : Led)
    → Shown n s
    → Shown (n + due t calls s) (run t calls s)
unfolding run due
run-Shown t [] n s shown = subst (λ k. Shown k s) (omega arith) shown
run-Shown t ((now, level) ∷ calls) n s shown =
    subst (λ k. Shown k (run t calls (led_tick t now level s))) (omega arith)
      (run-Shown t calls _ (led_tick t now level s) (tick-Shown t now n level s shown))

-- After a signature has been signalled, the LED is off, and at the calls of led_tick that are due it
-- blinks twice and shows ready from the fifth on, whatever the timer and the times of the calls.
pub signing-Shown :
    (t : Timer) (start : ℕ) (s : Led) (calls : List (ℕ × Bool))
    → (let s' = led_signal_signing t start s in Shown (due t calls s') (run t calls s'))
unfolding led_signal_signing
signing-Shown t start s calls =
    let s' = led_signal_signing t start s in
    subst (λ k. Shown k (run t calls s')) (omega arith)
      (run-Shown t calls 0 s' (inl (_, omega arith, refl)))
