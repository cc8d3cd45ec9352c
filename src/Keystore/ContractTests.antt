-- ===== src/Keystore/ContractTests.antt =====
-- Runs of the contract: a provisioning, a question and a clear on a blank board, and a question on a
-- provisioned one.
use roman_firmware.Prelude.{◌≡◌, refl, List, [], ◌∷◌, All}
use roman_firmware.Record.{Fields}
use roman_firmware.Bench.{plain_box, plain_box_laws, good_flash, good_flash_laws, blank}
use roman_firmware.Keystore.Invariant.{IsSound, blank-IsSound}
use roman_firmware.Keystore.Updates.{provision-IsSound}
use roman_firmware.Keystore.Contract.{
  Operation, provision, clear, signing_key, Runs, calls, call, holding,
}
use roman_firmware.Keystore.Contents.{contents, contents-holding}
use roman_firmware.Keystore.Refinement.{calls-Runs}
use roman_firmware.Keystore.Lasting.{Spares, Signs, calls-Signs}
use roman_firmware.Keystore.Tests.{pk_text, sk_text, dev_01, provisioned_board, installed}

bench-IsSound : IsSound plain_box blank
bench-IsSound = blank-IsSound plain_box blank refl refl

abbrev life : List Operation
life = provision pk_text sk_text dev_01 ∷ signing_key ∷ clear sk_text ∷ []

calls-Runs_example :
    (let (log, ks') = calls plain_box good_flash life blank in
      Runs (contents plain_box blank.store.flash) log (contents plain_box ks'.store.flash))
calls-Runs_example =
    calls-Runs plain_box good_flash life blank plain_box_laws good_flash_laws bench-IsSound

provisioned-IsSound : IsSound plain_box provisioned_board
unfolding provisioned_board
provisioned-IsSound =
    provision-IsSound plain_box good_flash plain_box_laws good_flash_laws pk_text sk_text dev_01
      blank bench-IsSound

abbrev stored : Fields
stored = record { pk = installed.2.0; sk = installed.2.1; device_id = dev_01 }

abbrev question : List Operation
question = signing_key ∷ []

question-Spares : All Spares (calls plain_box good_flash question provisioned_board).0
unfolding calls call
question-Spares = (((λ e. cc), (λ o e. cc)), tt)

calls-Signs_example :
    (let (log, ks') = calls plain_box good_flash question provisioned_board in
      (contents plain_box ks'.store.flash ≡ holding stored) × All (Signs stored) log)
calls-Signs_example =
    calls-Signs plain_box good_flash question provisioned_board stored plain_box_laws
      good_flash_laws provisioned-IsSound
      (contents-holding plain_box provisioned_board.store.flash stored installed.2.6.flag
        installed.2.6.fields)
      question-Spares
