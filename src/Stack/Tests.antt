-- ===== src/Stack/Tests.antt =====
-- A stack that has been used down to its fourth byte.
use roman_firmware.Prelude.{
  ◌+◌, ◌≤◌, ◌≡◌, ◌≢◌, refl, false, some, [], ◌∷◌, ◌++◌, arith, Bytes, get_or, replicate,
}
use roman_firmware.Stack.{
  Stack, paint, stack_watermark, stack_init, stack_total, stack_used_now, stack_used_max,
  stack_free_min,
}
use roman_firmware.Stack.Watermark.{watch, free_min_lem}

abbrev deep : Bytes
deep = replicate 3 paint ++ 7 ∷ replicate 16380 0

abbrev boot : Stack
boot = record { ram = replicate 16384 0; used_max = 0; painted = false }

watermark_deep : stack_watermark (some deep) 8 paint ≡ 3
unfolding stack_watermark
watermark_deep = refl

used_now_at_top : stack_used_now 536870912 (536870912 + 16384) ≡ 0
unfolding stack_used_now
used_now_at_top = refl

deep_touched : get_or deep 3 paint ≢ paint
deep_touched e = omega arith

free_min_lem_example :
    (stack_used_max (watch (deep ∷ []) (stack_init 16000 boot))
        + stack_free_min (watch (deep ∷ []) (stack_init 16000 boot))
      ≡ stack_total)
    × (stack_free_min (watch (deep ∷ []) (stack_init 16000 boot)) ≤ 3)
free_min_lem_example =
    free_min_lem 16000 boot (deep ∷ []) 0 3 (omega arith) (omega arith) deep_touched
