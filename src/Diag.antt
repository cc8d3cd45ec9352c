-- ===== src/Diag.antt =====
-- The progress markers of diag.c and diag.h: a stage number in a watchdog scratch register, which
-- survives a watchdog reset. `watchdog_caused_reboot` is an argument.
pub mod PostMortem
pub mod Tests
use Prim.Native.Nat.{bit_xor}
use roman_firmware.Prelude.{ℕ, Bool, String, ltb, ◌==◌, not, if◌then◌else◌}

pub data Stage : Type 0 where
  idle received fields_ok pair_check pair_ok entropy boxing erase program done clear : Stage
  sign_enter sign_key sign_parse sign_crypto sign_reply sign_done : Stage

-- The enumerators' values, in order.
unfoldable pub number : Stage → ℕ
number idle = 0
number received = 1
number fields_ok = 2
number pair_check = 3
number pair_ok = 4
number entropy = 5
number boxing = 6
number erase = 7
number program = 8
number done = 9
number clear = 10
number sign_enter = 11
number sign_key = 12
number sign_parse = 13
number sign_crypto = 14
number sign_reply = 15
number sign_done = 16

-- DIAG_STAGE_MAX
abbrev pub stage_max : ℕ
stage_max = 16

-- The cast from a number to `diag_stage_t`; only numbers up to DIAG_STAGE_MAX are cast.
unfoldable pub stage_of : ℕ → Stage
stage_of n =
    if n == 1
    then received
    else if n == 2
    then fields_ok
    else if n == 3
    then pair_check
    else if n == 4
    then pair_ok
    else if n == 5
    then entropy
    else if n == 6
    then boxing
    else if n == 7
    then erase
    else if n == 8
    then program
    else if n == 9
    then done
    else if n == 10
    then clear
    else if n == 11
    then sign_enter
    else if n == 12
    then sign_key
    else if n == 13
    then sign_parse
    else if n == 14
    then sign_crypto
    else if n == 15
    then sign_reply
    else if n == 16
    then sign_done
    else idle

abbrev pub marker : ℕ
marker = 0x524F4D41

-- `diag_stage(stage)`: the new value of scratch[0]
unfoldable pub diag_stage : Stage → ℕ
unfolding number
diag_stage s = bit_xor marker (number s)

unfoldable pub diag_previous_stage : Bool → ℕ → Stage
unfolding stage_of
diag_previous_stage by_watchdog scratch =
    if not by_watchdog
    then idle
    else let value = bit_xor scratch marker in if ltb stage_max value then idle else stage_of value

-- `diag_capture_boot_stage()`: the stage kept in RAM, and the new scratch[0].
unfoldable pub diag_capture_boot_stage : Bool → ℕ → Stage × ℕ
unfolding diag_previous_stage diag_stage
diag_capture_boot_stage by_watchdog scratch =
    (diag_previous_stage by_watchdog scratch, diag_stage idle)

unfoldable pub diag_stage_name : Stage → String
diag_stage_name received = "write-received"
diag_stage_name fields_ok = "fields-ok"
diag_stage_name pair_check = "pair-check"
diag_stage_name pair_ok = "pair-ok"
diag_stage_name entropy = "entropy"
diag_stage_name boxing = "boxing"
diag_stage_name erase = "erase"
diag_stage_name program = "program"
diag_stage_name done = "done"
diag_stage_name clear = "clear"
diag_stage_name sign_enter = "sign-enter"
diag_stage_name sign_key = "sign-key"
diag_stage_name sign_parse = "sign-parse"
diag_stage_name sign_crypto = "sign-crypto"
diag_stage_name sign_reply = "sign-reply"
diag_stage_name sign_done = "sign-done"
diag_stage_name idle = "none"
