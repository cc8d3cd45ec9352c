-- ===== src/Keystore/Contract.antt =====
-- What keystore.h promises, as a state machine that knows no flash, no cache and no markers; and the
-- calls of keystore.c that implement it.
use roman_firmware.Prelude.{
  ℕ, ◌+◌, ◌≡◌, ◌≢◌, Bool, true, false, Option, none, some, List, [], ◌∷◌, Bytes, length, drop, ltb,
  if◌then◌else◌,
}
use roman_firmware.Base64.{b64_decode}
use roman_firmware.Record.{Fields, device_id_valid}
use roman_firmware.Storage.{Crypto, Hardware, storage_clear}
use roman_firmware.Keystore.{
  Keystore, State, empty, provisioned, corrupt, Status, ok, err_already, ClearStatus, clear_ok,
  clear_empty, clear_err_arg, clear_err_denied, clear_err_flash, keystore_invalidate,
  keystore_writen, keystore_state, keystore_signing_key, keystore_device_id, keystore_public_key,
  keystore_provision, keystore_clear,
}
use roman_firmware.Keystore.Provision.{Secret}
use roman_firmware.Keystore.Clear.{Presents}
use roman_firmware.Keystore.ClearCases.{IsMisfit, IsOther}

-- What the board holds: nothing, a record that cannot be read, or these fields.
pub data Contents : Type 0 where
  nothing : Contents
  unreadable : Contents
  holding : Fields → Contents

-- The calls; `erase` is the maintenance endpoint's storage_clear with keystore_invalidate behind it.
pub data Operation : Type 0 where
  provision : Bytes → Bytes → Bytes → Operation
  clear : Bytes → Operation
  erase : Operation
  writen : Operation
  state : Operation
  signing_key : Operation
  public_key : Operation
  device_id : ℕ → Operation

pub data Answer : Type 0 where
  provision_status : Status → Answer
  clear_status : ClearStatus → Answer
  done : Bool → Answer
  state_is : State → Answer
  found : Option Bytes → Answer

-- What a question about the contents is answered.
abbrev pub flag_of : Contents → Bool
flag_of nothing = false
flag_of unreadable = true
flag_of (holding f) = true

abbrev pub state_of : Contents → State
state_of nothing = empty
state_of unreadable = corrupt
state_of (holding f) = provisioned

abbrev pub field_of : (Fields → Option Bytes) → Contents → Option Bytes
field_of get nothing = none
field_of get unreadable = none
field_of get (holding f) = get f

abbrev pub id_in : ℕ → Fields → Option Bytes
id_in cap f = if ltb cap (length f.device_id + 1) then none else some f.device_id

-- The fields that three texts stand for.
abbrev pub Stand : Bytes → Bytes → Bytes → Fields → Type 0
Stand pk_b64 sk_b64 id f =
    (device_id_valid id ≡ true)
    × (f.device_id ≡ id)
    × (b64_decode pk_b64 32 ≡ some f.pk)
    × (length f.pk ≡ 32)
    × Secret sk_b64 f.pk f.sk
    × (drop 32 f.sk ≡ f.pk)

-- The steps of the machine: the contents before, the call, its answer, the contents after. Only
-- flash can fail on its own account.
pub data Allowed : Contents → Operation → Answer → Contents → Type 0 where
  provisions :
      (pk sk id : Bytes) (f : Fields)
      → Stand pk sk id f
      → Allowed nothing (provision pk sk id) (provision_status ok) (holding f)
  refuses :
      (pk sk id : Bytes) (status : Status)
      → status ≢ ok
      → status ≢ err_already
      → Allowed nothing (provision pk sk id) (provision_status status) nothing
  already :
      (pk sk id : Bytes) (k : Contents)
      → flag_of k ≡ true
      → Allowed k (provision pk sk id) (provision_status err_already) k
  clears :
      (text given : Bytes) (f : Fields)
      → b64_decode text 64 ≡ some given
      → Presents given f.sk
      → Allowed (holding f) (clear text) (clear_status clear_ok) nothing
  clears_nothing : (text : Bytes) → Allowed nothing (clear text) (clear_status clear_empty) nothing
  misfit :
      (text : Bytes) (f : Fields)
      → IsMisfit text
      → Allowed (holding f) (clear text) (clear_status clear_err_arg) (holding f)
  denied :
      (text : Bytes) (f : Fields)
      → IsOther text f.sk
      → Allowed (holding f) (clear text) (clear_status clear_err_denied) (holding f)
  denied_unreadable :
      (text : Bytes) → Allowed unreadable (clear text) (clear_status clear_err_denied) unreadable
  clear_fails :
      (text : Bytes) (f : Fields)
      → Allowed (holding f) (clear text) (clear_status clear_err_flash) (holding f)
  erases : (k : Contents) → Allowed k erase (done true) nothing
  erase_fails : (k : Contents) → Allowed k erase (done false) k
  tells_flag : (k : Contents) → Allowed k writen (done (flag_of k)) k
  tells_state : (k : Contents) → Allowed k state (state_is (state_of k)) k
  tells_signing_key : (k : Contents) → Allowed k signing_key (found (field_of (λ f. some f.sk) k)) k
  tells_public_key : (k : Contents) → Allowed k public_key (found (field_of (λ f. some f.pk) k)) k
  tells_device_id :
      (cap : ℕ) (k : Contents) → Allowed k (device_id cap) (found (field_of (id_in cap) k)) k

-- A run of the machine, with the calls and their answers in order.
pub data Runs : Contents → List (Operation × Answer) → Contents → Type 0 where
  halt : (k : Contents) → Runs k [] k
  then_ :
      {k l m : Contents} {op : Operation} {answer : Answer} {rest : List (Operation × Answer)}
      → Allowed k op answer l
      → Runs l rest m
      → Runs k ((op, answer) ∷ rest) m

module _ (c : Crypto) (hw : Hardware) where
  unfoldable pub call : Operation → Keystore → Answer × Keystore
  call (provision pk sk id) ks =
      let (status, ks') = keystore_provision c hw (some pk) (some sk) (some id) ks in
      (provision_status status, ks')
  call (clear text) ks =
      let (status, ks') = keystore_clear c hw (some text) ks in (clear_status status, ks')
  call erase ks =
      let (erased, st) = storage_clear hw ks.store in
      let ks' = record ks { store = st } in
      (done erased, if erased then keystore_invalidate ks' else ks')
  call writen ks = (done (keystore_writen ks), ks)
  call state ks = let (s, ks') = keystore_state c ks in (state_is s, ks')
  call signing_key ks = let (key, ks') = keystore_signing_key c ks in (found key, ks')
  call public_key ks = let (key, ks') = keystore_public_key c ks in (found key, ks')
  call (device_id cap) ks = let (id, ks') = keystore_device_id c cap ks in (found id, ks')

  unfoldable pub calls : List Operation → Keystore → List (Operation × Answer) × Keystore
  unfolding call
  calls [] ks = ([], ks)
  calls (op ∷ ops) ks =
      let (answer, ks') = call op ks in
      let (rest, ks'') = calls ops ks' in ((op, answer) ∷ rest, ks'')
