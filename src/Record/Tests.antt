-- ===== src/Record/Tests.antt =====
-- Runs of the record codec, after tools/record_test.c, and the theorems at concrete inputs.
use roman_firmware.Prelude.{
  ◌≤◌, ◌≡◌, ◌≢◌, ◌↔◌, refl, true, false, some, [], codes, arith, Bytes, length, replicate, All,
}
use roman_firmware.Record.{record_encode, record_decode, device_id_valid, all_id_chars}
use roman_firmware.Record.DeviceId.{IsIdChar, device_id_valid_iff}
use roman_firmware.Record.RoundTrip.{decode-encode_record}

abbrev dev_01 : Bytes
dev_01 = codes "dev-01"

id_with_space : device_id_valid (codes "dev 01") ≡ false
unfolding device_id_valid all_id_chars
id_with_space = refl

encode_accepted : record_encode 130 (replicate 32 7) (replicate 64 9) (some dev_01) ≢ []
unfolding record_encode device_id_valid all_id_chars
encode_accepted e = cc e

device_id_valid_iff_example : (device_id_valid (codes "dev-01") ≡ true) ↔ (
    (1 ≤ length (codes "dev-01")) × (length (codes "dev-01") ≤ 32) × All IsIdChar (codes "dev-01"))
device_id_valid_iff_example = device_id_valid_iff (codes "dev-01")

decode-encode_record_example :
    record_decode (record_encode 130 (replicate 32 7) (replicate 64 9) (some (codes "dev-01"))) 33
    ≡ some (record { pk = replicate 32 7; sk = replicate 64 9; device_id = codes "dev-01" })
decode-encode_record_example =
    decode-encode_record 130 33 (replicate 32 7) (replicate 64 9) (codes "dev-01") refl refl
      encode_accepted (omega arith)
