-- ===== src/Led.antt =====
-- The status LED, led.c and led.h.
--
-- The state is the static variables of led.c and the level that was last put on the pin. The SDK's
-- timer is a parameter: a time is a number, `make_timeout_time_ms now ms` the time `ms` milliseconds
-- from `now`. `level` is what gpio_get would return.
pub mod Patterns
pub mod Tests
use roman_firmware.Prelude.{
  ℕ, suc, ◌+◌, Bool, true, false, not, List, [], ◌∷◌, leb, ◌==◌, if◌then◌else◌,
}

pub data Pattern : Type 0 where
  ready : Pattern
  activity : Pattern
  signing : Pattern
  failing : Pattern

pub record Led : Type 0 where
  pub current_pattern : Pattern
  pub pattern_step : ℕ
  pub next_toggle : ℕ
  pub pin : Bool

pub record Timer : Type 0 where
  pub make_timeout_time_ms : ℕ → ℕ → ℕ
  pub time_reached : ℕ → ℕ → Bool

module _ (t : Timer) (now : ℕ) where
  schedule_ms : ℕ → Led → Led
  schedule_ms ms s = record s { next_toggle = t.make_timeout_time_ms now ms }

  gpio_put : Bool → Led → Led
  gpio_put on s = record s { pin = on }

  -- led_init, led_set_ready and the three signals: a pattern from its first step on.
  start : Pattern → Bool → ℕ → Led → Led
  unfolding schedule_ms gpio_put
  start shape on ms s =
      schedule_ms ms (gpio_put on (record s { current_pattern = shape; pattern_step = 0 }))

  unfoldable pub led_init : Led → Led
  unfolding start
  led_init s = start ready false 100 s

  unfoldable pub led_set_ready : Led → Led
  unfolding start
  led_set_ready s = start ready true 100 s

  unfoldable pub led_signal_activity : Led → Led
  unfolding start
  led_signal_activity s = start activity false 50 s

  unfoldable pub led_signal_signing : Led → Led
  unfolding start
  led_signal_signing s = start signing false 150 s

  unfoldable pub led_signal_error : Led → Led
  unfolding start
  led_signal_error s = start failing false 500 s

  -- The switch on `pattern_step` after its increment.
  signing_step : ℕ → Led → Led
  unfolding schedule_ms gpio_put
  signing_step step s =
      if step == 1
      then schedule_ms 150 (gpio_put false s)
      else if step == 2
      then schedule_ms 150 (gpio_put true s)
      else if step == 3
      then schedule_ms 150 (gpio_put false s)
      else if step == 4
      then schedule_ms 1000 (gpio_put true s)
      else schedule_ms 100 (gpio_put true (record s { current_pattern = ready }))

  -- The switch on the pattern.
  unfoldable pub led_step : Bool → Pattern → Led → Led
  unfolding schedule_ms gpio_put signing_step
  led_step level ready s = schedule_ms 100 (gpio_put true s)
  led_step level activity s =
      let s' = record s { pattern_step = s.pattern_step + 1 } in
      if leb 1 s'.pattern_step
      then record (gpio_put true s') { current_pattern = ready }
      else schedule_ms 50 (gpio_put false s')
  led_step level signing s =
      signing_step (s.pattern_step + 1) (record s { pattern_step = s.pattern_step + 1 })
  led_step level failing s = schedule_ms 500 (gpio_put (not level) s)

  unfoldable pub led_tick : Bool → Led → Led
  unfolding led_step
  led_tick level s =
      if not (t.time_reached now s.next_toggle) then s else led_step level s.current_pattern s
