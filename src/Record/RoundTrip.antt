-- ===== src/Record/RoundTrip.antt =====
-- The codec undoes itself: `record_encode` against `record_decode`.
use roman_firmware.Prelude.{
  ℕ, ◌+◌, ◌≤◌, ◌<◌, ◌≡◌, ◌≢◌, refl, true, some, [], ◌∷◌, ◌++◌, arith, Bytes, length, length-append,
  slice, take-all, take-append, drop-append, drop-append_more,
}
use roman_firmware.Record.{record_encode, record_decode, device_id_valid, c_str}
use roman_firmware.Record.DeviceId.{device_id_valid_iff, device_id-IsPlain, c_str-IsPlain}

abbrev pub payload : Bytes → Bytes → Bytes → Bytes
payload pk sk id = 1 ∷ length id ∷ (pk ++ (sk ++ id))

-- With keys of the right size and a valid id, `record_encode` writes the documented layout.
pub record_encode_layout :
    (cap : ℕ) (pk sk id : Bytes)
    → length pk ≡ 32
    → length sk ≡ 64
    → device_id_valid id ≡ true
    → 98 + length id ≤ cap
    → record_encode cap pk sk (some id) ≡ payload pk sk id
unfolding record_encode
record_encode_layout cap pk sk id hp hs v fits =
    let (lo, hi, _) = (device_id_valid_iff id).0 v in
    rw (v, take-all 32 pk hp, take-all 64 sk hs) (ground arith)

-- `record_encode` refuses an invalid id and a buffer that is too small, and nothing else.
pub encode_accepts :
    (cap : ℕ) (pk sk id : Bytes)
    → record_encode cap pk sk (some id) ≢ []
    → (device_id_valid id ≡ true) × (98 + length id ≤ cap)
unfolding record_encode
encode_accepts cap pk sk id accepted = ground arith

module _ (pk sk id : Bytes) (hp : length pk ≡ 32) (hs : length sk ≡ 64) where
  pub length-payload : length (payload pk sk id) ≡ 98 + length id
  length-payload = omega (arith, length-append pk (sk ++ id), length-append sk id)

  slice_pk : slice 2 32 (payload pk sk id) ≡ pk
  slice_pk = take-append 32 pk (sk ++ id) hp

  slice_sk : slice 34 64 (payload pk sk id) ≡ sk
  slice_sk = rw (drop-append_more 32 0 pk (sk ++ id) hp) (take-append 64 sk id hs)

  slice_id : slice 98 (length id) (payload pk sk id) ≡ id
  slice_id =
      rw (drop-append_more 32 64 pk (sk ++ id) hp, drop-append 64 sk id hs) (take-all _ id refl)

  decode-payload :
      (cap : ℕ)
      → device_id_valid id ≡ true
      → length id < cap
      → record_decode (payload pk sk id) cap ≡ some (record { pk = pk; sk = sk; device_id = id })
  unfolding record_decode
  decode-payload cap v fits =
      let (lo, hi, _) = (device_id_valid_iff id).0 v in
      let whole : c_str id ≡ id = c_str-IsPlain id (device_id-IsPlain id v) in
      rw (slice_pk, slice_sk, slice_id, whole, v) (ground (arith, length-payload))

-- What `record_encode` accepts, `record_decode` reads back, given room for the id and its NUL.
pub decode-encode_record :
    (cap id_cap : ℕ) (pk sk id : Bytes)
    → length pk ≡ 32
    → length sk ≡ 64
    → record_encode cap pk sk (some id) ≢ []
    → length id < id_cap
    → record_decode (record_encode cap pk sk (some id)) id_cap
      ≡ some (record { pk = pk; sk = sk; device_id = id })
decode-encode_record cap id_cap pk sk id hp hs accepted fits =
    let (v, room) = encode_accepts cap pk sk id accepted in
    rw (record_encode_layout cap pk sk id hp hs v room)
      (decode-payload pk sk id hp hs id_cap v fits)
