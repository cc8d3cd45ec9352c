-- ===== src/Led/Tests.antt =====
-- A timer that counts milliseconds, and a call of led_tick every 100.
use roman_firmware.Prelude.{ℕ, ◌+◌, ◌≡◌, refl, Bool, true, false, List, [], ◌∷◌, leb}
use roman_firmware.Led.{Led, ready, Timer, led_init, led_signal_signing, led_tick}
use roman_firmware.Led.Patterns.{Shown, run, due, signing-Shown}

abbrev clock : Timer
clock = record {
  make_timeout_time_ms = λ now ms. now + ms;
  time_reached = λ now time. leb time now;
}

abbrev off : Led
off = record { current_pattern = ready; pattern_step = 0; next_toggle = 100; pin = false }

abbrev calls : List (ℕ × Bool)
calls = (100, false) ∷ (200, false) ∷ (300, false) ∷ (400, true) ∷ (500, true) ∷ []

init_off : led_init clock 0 off ≡ off
unfolding led_init
init_off = refl

due_twice : due clock calls (led_signal_signing clock 0 off) ≡ 2
unfolding due led_signal_signing led_tick
due_twice = refl

signing-Shown_example :
    Shown
      (due clock calls (led_signal_signing clock 0 off))
      (run clock calls (led_signal_signing clock 0 off))
signing-Shown_example = signing-Shown clock 0 off calls
