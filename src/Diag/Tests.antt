-- ===== src/Diag/Tests.antt =====
-- The post-mortem theorem at a concrete stage.
use roman_firmware.Prelude.{◌≡◌, true, if◌then◌else◌}
use roman_firmware.Diag.{idle, program, diag_stage, diag_previous_stage, diag_capture_boot_stage}
use roman_firmware.Diag.PostMortem.{capture-stage}

capture-stage_example :
    (let (reported, scratch) = diag_capture_boot_stage true (diag_stage program) in
      (reported ≡ (if true then program else idle)) × (diag_previous_stage true scratch ≡ idle))
capture-stage_example = capture-stage true true program
