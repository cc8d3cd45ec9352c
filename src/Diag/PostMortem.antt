-- ===== src/Diag/PostMortem.antt =====
-- What the next boot reports of the run before it.
use roman_firmware.Prelude.{◌≡◌, refl, Bool, true, false, if◌then◌else◌}
use roman_firmware.Diag.{Stage, idle, diag_stage, diag_previous_stage, diag_capture_boot_stage}

previous-stage : (s : Stage) → diag_previous_stage true (diag_stage s) ≡ s
unfolding diag_previous_stage diag_stage
previous-stage idle = refl
previous-stage _ = refl

-- After a watchdog reset the boot reports the last stage that was recorded, after any other reset
-- the idle one; and what a second watchdog reset would report is the idle stage.
pub capture-stage :
    (by_watchdog again : Bool) (s : Stage)
    → (let (reported, scratch) = diag_capture_boot_stage by_watchdog (diag_stage s) in
        (reported ≡ (if by_watchdog then s else idle)) × (diag_previous_stage again scratch ≡ idle))
unfolding diag_capture_boot_stage
capture-stage true true s = (previous-stage s, refl)
capture-stage true false s = (previous-stage s, refl)
capture-stage false true s = (refl, refl)
capture-stage false false s = (refl, refl)
