-- ===== src/Stack.antt =====
-- The stack watermark, stack.c and stack.h.
--
-- `ram` is the array stack_ram as bytes. `frame` is __builtin_frame_address(0) as an offset from the
-- start of the array, at most its size.
pub mod Watermark
pub mod Tests
use roman_firmware.Prelude.{
  ℕ, zero, suc, ◌+◌, ◌-◌, Bool, true, false, not, ◌||◌, Option, none, some, List, [], ◌∷◌, ◌++◌,
  Bytes, drop, replicate, ltb, leb, ◌==◌, if◌then◌else◌,
}

-- STACK_PAINT, STACK_PAINT_SLACK and STACK_RAM_BYTES
abbrev pub paint : ℕ
paint = 0xC5

abbrev pub paint_slack : ℕ
paint_slack = 64

abbrev pub ram_bytes : ℕ
ram_bytes = 16384

pub record Stack : Type 0 where
  pub ram : Bytes
  pub used_max : ℕ
  pub painted : Bool

-- The loop of `stack_watermark`: how many of the first `size` bytes come before one without paint.
unfoldable pub scan : ℕ → Bytes → ℕ → ℕ
scan zero bytes value = 0
scan (suc size) [] value = 0
scan (suc size) (x ∷ bytes) value =
    let rest = scan size bytes value in if x == value then suc rest else 0

unfoldable pub stack_watermark : Option Bytes → ℕ → ℕ → ℕ
unfolding scan
stack_watermark none size value = 0
stack_watermark (some bottom) size value = scan size bottom value

-- The end of `stack_check`, with `used` bytes found in use.
unfoldable pub raise_max : ℕ → Stack → Stack
raise_max used s = if ltb s.used_max used then record s { used_max = used } else s

unfoldable pub stack_check : Stack → Stack
stack_check s =
    if not s.painted
    then s
    else raise_max (ram_bytes - stack_watermark (some s.ram) ram_bytes paint) s

unfoldable pub stack_init : ℕ → Stack → Stack
stack_init frame s =
    let limit = frame - paint_slack in
    stack_check
      (record { ram = replicate limit paint ++ drop limit s.ram; used_max = 0; painted = true })

abbrev pub stack_total : ℕ
stack_total = ram_bytes

-- `bottom` is the address of stack_ram, `sp` the frame address.
unfoldable pub stack_used_now : ℕ → ℕ → ℕ
stack_used_now bottom sp =
    let top = bottom + ram_bytes in if ltb sp bottom || leb top sp then 0 else top - sp

unfoldable pub stack_used_max : Stack → ℕ
stack_used_max s = s.used_max

unfoldable pub stack_free_min : Stack → ℕ
stack_free_min s = if leb stack_total s.used_max then 0 else stack_total - s.used_max
