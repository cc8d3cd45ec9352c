-- ===== src/Bench.antt =====
-- A board for the tests: a stand-in for tweetnacl.c that boxes nothing, and a flash that always
-- works. It shows that what the theorems assume of both can hold.
use roman_firmware.Prelude.{
  ◌+◌, refl, sym, ap, ◌∙◌, Bool, true, false, Option, none, some, [], ◌∷◌, ◌++◌, arith, Bytes,
  length, take, drop, replicate, bytes_eq, ltb,
}
use roman_firmware.Storage.Randomness.{Entropy}
use roman_firmware.Storage.{Crypto, Hardware, Store}
use roman_firmware.Storage.Assumptions.{CryptoLaws, HardwareLaws}
use roman_firmware.Keystore.{Keystore}

abbrev pub plain_box : Crypto
plain_box = record {
  crypto_box = λ m n pk sk. some m;
  crypto_box_open = λ m n pk sk. some m;
  crypto_box_keypair = λ seed. some (replicate 32 1, replicate 32 2);
  crypto_verify_32 = λ x y. bytes_eq (take 32 x) (take 32 y);
  crypto_sign = λ m sk. replicate 64 0 ++ m;
}

abbrev from_some : Option Bytes → Bytes
from_some none = []
from_some (some bytes) = bytes

abbrev first : Option (Bytes × Bytes) → Bytes
first none = []
first (some pair) = pair.0

abbrev second : Option (Bytes × Bytes) → Bytes
second none = []
second (some pair) = pair.1

pub plain_box_laws : CryptoLaws plain_box
plain_box_laws = record {
  box_opens = λ x n pk sk out e. (
    sym (ap (λ (o : Option Bytes). length (from_some o)) e) ∙ omega arith,
    sym (ap (λ (o : Option Bytes). take 16 (from_some o)) e),
    sym e,
  );
  keypair_size = λ seed pk sk e. (
    sym (ap (λ (o : Option (Bytes × Bytes)). length (first o)) e),
    sym (ap (λ (o : Option (Bytes × Bytes)). length (second o)) e),
  );
  verify_compares = λ x y. refl;
}

abbrev pub quiet : Entropy
quiet = record {
  trng = λ n. record { trng_busy = λ k. ltb k 3; timeout = 5; ehr_data = (n, n + 7) };
  boot_random = none;
  board_id = 1 ∷ 2 ∷ [];
  time_us = 5;
}

abbrev pub good_flash : Hardware
good_flash = record {
  flash_range_erase = λ flash. replicate 4096 0xFF;
  flash_range_program = λ buf flash. buf ++ drop 512 flash;
  flash_safe_execute = λ f flash. (true, f flash);
  entropy = quiet;
}

pub good_flash_laws : HardwareLaws good_flash
good_flash_laws = record {
  executed = λ f flash flash' e. sym (ap (λ (p : Bool × Bytes). p.1) e);
  refused = λ f flash flash' e. cc;
  erases = λ flash h. refl;
  programs = λ buf h. refl;
}

abbrev pub blank_store : Store
blank_store = record {
  flash = replicate 4096 0xFF;
  random = record { rand_state = 0; rand_seeded = false; rand_trng_seen = false; samples = 0 };
  scratch = 0;
}

abbrev pub blank : Keystore
blank = record {
  store = blank_store;
  cached_pk = [];
  cached_sk = [];
  cached_id = [];
  cache_valid = false;
}
