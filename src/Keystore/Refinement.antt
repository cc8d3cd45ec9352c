-- ===== src/Keystore/Refinement.antt =====
-- keystore.c implements the contract.
use roman_firmware.Prelude.{
  ◌≡◌, ◌≢◌, refl, ap, ◌∙◌, ◌⊎◌, inl, inr, false, some, List, [], ◌∷◌, Bytes, length, Bool-cases,
}
use roman_firmware.Base64.{record_b64_decode}
use roman_firmware.Record.{Fields}
use roman_firmware.Diag
use roman_firmware.Storage.{Crypto, Hardware, storage_writen, storage_clear}
use roman_firmware.Storage.Assumptions.{CryptoLaws, HardwareLaws}
use roman_firmware.Storage.Write.{execute_cases}
use roman_firmware.Keystore.{
  Keystore, Status, ok, err_already, at_stage, keystore_invalidate, keystore_load,
  keystore_provision, keystore_clear,
}
use roman_firmware.Keystore.Provision.{provision_sound}
use roman_firmware.Keystore.Coherence.{cached}
use roman_firmware.Keystore.Invariant.{
  IsSound, load-IsSound, stage-IsSound, state-IsSound, signing_key-IsSound, device_id-IsSound,
  public_key-IsSound,
}
use roman_firmware.Keystore.Updates.{provision-IsSound, erase-IsSound, clear-IsSound}
use roman_firmware.Keystore.Cases.{provision-each}
use roman_firmware.Keystore.ClearCases.{given-each}
use roman_firmware.Keystore.Contract
use roman_firmware.Keystore.Contract.{
  Contents, nothing, unreadable, holding, Operation, Answer, Allowed, Runs, halt, then_, call,
  calls, flag_of, state_of, field_of, id_in,
}
use roman_firmware.Keystore.Contents.{
  contents, unset_contents, contents-holding, erased_contents, flag_contents, load_contents,
  same_contents, signing_key-Allowed, public_key-Allowed, device_id-Allowed, writen-Allowed,
  state-Allowed,
}

module _ (c : Crypto) (hw : Hardware) (laws : CryptoLaws c) (hl : HardwareLaws hw) where
  -- A provisioning that is not refused for the flag succeeds, or leaves the flag unset.
  abbrev Attempt : Status × Keystore → Type 0
  Attempt (status, ks) =
      (status ≡ ok) ⊎ (status ≢ ok) × (status ≢ err_already) × (contents c ks.store.flash ≡ nothing)

  provision-Attempt :
      (p s id : Bytes) (ks : Keystore)
      → length ks.store.flash ≡ 4096
      → storage_writen ks.store.flash ≡ false
      → Attempt (keystore_provision c hw (some p) (some s) (some id) ks)
  provision-Attempt p s id ks size unset =
      let blank = unset_contents c ks.store.flash unset in
      provision-each c hw laws hl Attempt id ks size
        (λ status n refusal. inr (elim refusal [
          | inl arg ↦ ((λ e. cc), (λ e. cc), blank)
          | inr mismatch ↦ ((λ e. cc), (λ e. cc), blank)
        ]))
        (λ st left. inr (
          (λ e. cc),
          (λ e. cc),
          elim left [
            | inl same ↦ ap (contents c) same ∙ blank
            | inr erased ↦ erased_contents c st.flash erased
          ],
        ))
        (λ st flag size'. inl refl) p s unset

  provision-Allowed :
      (p s id : Bytes) (ks : Keystore)
      → length ks.store.flash ≡ 4096
      → (let (status, ks') = keystore_provision c hw (some p) (some s) (some id) ks in
          Allowed
            (contents c ks.store.flash)
            (Contract.provision p s id)
            (Contract.provision_status status)
            (contents c ks'.store.flash))
  provision-Allowed p s id ks size = elim (Bool-cases (storage_writen ks.store.flash)) [
    | inl set ↦
        unfold keystore_provision in
        rw (set, keystore_provision)
          (Contract.already p s id (contents c ks.store.flash)
            (flag_contents c ks.store.flash ∙ set))
    | inr unset ↦
        rw (unset_contents c ks.store.flash unset) (elim (provision-Attempt p s id ks size unset) [
          | inr (not_ok, not_already, none_) ↦
              rw none_ (Contract.refuses p s id _ not_ok not_already)
          | inl done ↦
              let (_, valid, (pk, sk, at_pk, size_pk, secret, half, holds)) =
                provision_sound c hw p s id ks laws hl size done in
              let f : Fields = record { pk = pk; sk = sk; device_id = id } in
              rw (done, contents-holding c _ f holds.flag holds.fields)
                (Contract.provisions p s id f (valid, refl, at_pk, size_pk, secret, half))
        ])
  ]

  clear-Allowed :
      (text : Bytes) (ks : Keystore)
      → IsSound c ks
      → (let (status, ks') = keystore_clear c hw (some text) ks in
          Allowed
            (contents c ks.store.flash)
            (Contract.clear text)
            (Contract.clear_status status)
            (contents c ks'.store.flash))
  unfolding keystore_clear record_b64_decode at_stage keystore_invalidate
  clear-Allowed text ks s = elim (Bool-cases (storage_writen ks.store.flash)) [
    | inr unset ↦
        rw (unset, keystore_clear, unset_contents c ks.store.flash unset)
          (Contract.clears_nothing text)
    | inl set ↦
        let marked = at_stage Diag.clear ks in
        let s' = stage-IsSound c Diag.clear ks s in
        let loaded = (keystore_load c marked).1 in
        let same = same_contents c marked s' in
        elim (load_contents c marked s') [
          | inr (failed, inr damaged) ↦
              rw (set, failed, keystore_clear, same, damaged) (Contract.denied_unreadable text)
          | inr (failed, inl none_) ↦ cc (flag_contents c ks.store.flash)
          | inl (found, holds) ↦
              let f = cached loaded in
              rw (set, found, keystore_clear, holds)
                (given-each c hw laws hl
                  (λ result.
                    Allowed (holding f) (Contract.clear text) (Contract.clear_status result.0)
                      (contents c result.1.store.flash))
                  text loaded (load-IsSound c marked s').size
                  (λ strange. rw (same, holds) (Contract.misfit text f strange))
                  (λ other. rw (same, holds) (Contract.denied text f other))
                  (λ st kept. rw (ap (contents c) kept, same, holds) (Contract.clear_fails text f))
                  (λ given st decoded shown erased.
                    rw (erased_contents c st.flash erased)
                      (Contract.clears text given f decoded shown)))
        ]
  ]

  erase-Allowed :
      (ks : Keystore)
      → length ks.store.flash ≡ 4096
      → (let (answer, ks') = call c hw Contract.erase ks in
          Allowed (contents c ks.store.flash) Contract.erase answer (contents c ks'.store.flash))
  unfolding call storage_clear keystore_invalidate
  erase-Allowed ks size = elim (execute_cases c hw hl hw.flash_range_erase ks.store.flash) [
    | inl (erased, blank) ↦
        rw (erased, erased_contents c _ (blank ∙ hl.erases ks.store.flash size))
          (Contract.erases (contents c ks.store.flash))
    | inr (refused, same) ↦ rw (refused, same) (Contract.erase_fails (contents c ks.store.flash))
  ]

  call-Allowed :
      (op : Operation) (ks : Keystore)
      → IsSound c ks
      → (let (answer, ks') = call c hw op ks in
          Allowed (contents c ks.store.flash) op answer (contents c ks'.store.flash)
          × IsSound c ks')
  unfolding call
  call-Allowed (Contract.provision p s id) ks sound =
      (provision-Allowed p s id ks sound.size, provision-IsSound c hw laws hl p s id ks sound)
  call-Allowed (Contract.clear text) ks sound =
      (clear-Allowed text ks sound, clear-IsSound c hw laws hl text ks sound)
  call-Allowed Contract.erase ks sound =
      (erase-Allowed ks sound.size, erase-IsSound c hw laws hl ks sound)
  call-Allowed Contract.writen ks sound = (writen-Allowed c ks sound, sound)
  call-Allowed Contract.state ks sound = (state-Allowed c ks sound, state-IsSound c ks sound)
  call-Allowed Contract.signing_key ks sound =
      (signing_key-Allowed c ks sound, signing_key-IsSound c ks sound)
  call-Allowed Contract.public_key ks sound =
      (public_key-Allowed c ks sound, public_key-IsSound c ks sound)
  call-Allowed (Contract.device_id cap) ks sound =
      (device_id-Allowed c ks sound cap, device_id-IsSound c cap ks sound)

-- The calls of the keystore, in any order and with any texts, answer like a run of the contract's
-- machine, from the contents that flash stands for at the start to those at the end. The keystore is
-- sound at the start: the cache agrees with flash, the sector has 4096 bytes, and a record that can be
-- read has its flag set, which one that a power cut left without a flag does not meet. TweetNaCl and
-- the flash calls behave as assumed.
pub calls-Runs :
    (c : Crypto) (hw : Hardware) (ops : List Operation) (ks : Keystore)
    → CryptoLaws c
    → HardwareLaws hw
    → IsSound c ks
    → (let (log, ks') = calls c hw ops ks in
        Runs (contents c ks.store.flash) log (contents c ks'.store.flash))
unfolding calls
calls-Runs c hw [] ks laws hl s = halt (contents c ks.store.flash)
calls-Runs c hw (op ∷ ops) ks laws hl s =
    let (allowed, s') = call-Allowed c hw laws hl op ks s in
    then_ allowed (calls-Runs c hw ops (call c hw op ks).1 laws hl s')
