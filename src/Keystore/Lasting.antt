-- ===== src/Keystore/Lasting.antt =====
-- A record lasts until it is cleared or erased.
use roman_firmware.Prelude.{◌≡◌, ◌≢◌, refl, true, some, List, All}
use roman_firmware.Record.{Fields}
use roman_firmware.Storage.{Crypto, Hardware}
use roman_firmware.Storage.Assumptions.{CryptoLaws, HardwareLaws}
use roman_firmware.Keystore.{Keystore, clear_ok}
use roman_firmware.Keystore.Invariant.{IsSound}
use roman_firmware.Keystore.Contract.{
  Contents, holding, Operation, erase, signing_key, Answer, clear_status, done, found, Allowed,
  provisions, refuses, already, clears, clears_nothing, misfit, denied, denied_unreadable,
  clear_fails, erases, erase_fails, tells_flag, tells_state, tells_signing_key, tells_public_key,
  tells_device_id, Runs, halt, then_, calls,
}
use roman_firmware.Keystore.Contents.{contents}
use roman_firmware.Keystore.Refinement.{calls-Runs}

-- A call that neither cleared nor erased the record.
abbrev pub Spares : Operation × Answer → Type 0
Spares (op, answer) = (answer ≢ clear_status clear_ok) × (op ≡ erase → answer ≢ done true)

-- A call for the signing key is answered with that of `f`.
abbrev pub Signs : Fields → Operation × Answer → Type 0
Signs f (op, answer) = op ≡ signing_key → answer ≡ found (some f.sk)

module _ (f : Fields) where
  step-Lasting :
      {k l : Contents} {op : Operation} {answer : Answer}
      → Allowed k op answer l
      → k ≡ holding f
      → Spares (op, answer)
      → (l ≡ holding f) × Signs f (op, answer)
  step-Lasting (provisions pk sk id g stand) e h = cc
  step-Lasting (refuses pk sk id status a b) e h = cc
  step-Lasting (already pk sk id k set) e h = (e, λ o. cc)
  step-Lasting (clears text given g decoded shown) e h = absurd (h.0 refl)
  step-Lasting (clears_nothing text) e h = cc
  step-Lasting (misfit text g strange) e h = (e, λ o. cc)
  step-Lasting (denied text g other) e h = (e, λ o. cc)
  step-Lasting (denied_unreadable text) e h = cc
  step-Lasting (clear_fails text g) e h = (e, λ o. cc)
  step-Lasting (erases k) e h = absurd (h.1 refl refl)
  step-Lasting (erase_fails k) e h = (e, λ o. cc)
  step-Lasting (tells_flag k) e h = (e, λ o. cc)
  step-Lasting (tells_state k) e h = (e, λ o. cc)
  step-Lasting (tells_signing_key k) e h = (e, λ o. rw e refl)
  step-Lasting (tells_public_key k) e h = (e, λ o. cc)
  step-Lasting (tells_device_id cap k) e h = (e, λ o. cc)

  Runs-Lasting :
      {k m : Contents} {log : List (Operation × Answer)}
      → Runs k log m
      → k ≡ holding f
      → All Spares log
      → (m ≡ holding f) × All (Signs f) log
  Runs-Lasting (halt k) e h = (e, tt)
  Runs-Lasting (then_ allowed rest) e (spared, others) =
      let (same, signs) = step-Lasting allowed e spared in
      let (end, all) = Runs-Lasting rest same others in (end, (signs, all))

-- On a board that holds the record `f`, over any calls of which none clears or erases it: every call
-- for the signing key is answered with that of `f`, and the board holds `f` at the end. The keystore
-- is sound at the start, and TweetNaCl and the flash calls behave as assumed.
pub calls-Signs :
    (c : Crypto) (hw : Hardware) (ops : List Operation) (ks : Keystore) (f : Fields)
    → CryptoLaws c
    → HardwareLaws hw
    → IsSound c ks
    → contents c ks.store.flash ≡ holding f
    → All Spares (calls c hw ops ks).0
    → (let (log, ks') = calls c hw ops ks in
        (contents c ks'.store.flash ≡ holding f) × All (Signs f) log)
calls-Signs c hw ops ks f laws hl s holds spared =
    Runs-Lasting f (calls-Runs c hw ops ks laws hl s) holds spared
