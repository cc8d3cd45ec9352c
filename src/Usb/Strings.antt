-- ===== src/Usb/Strings.antt =====
-- The header of a string descriptor.
use roman_firmware.Prelude.{
  ℕ, ◌+◌, ◌*◌, ◌/◌, ◌%◌, ◌≤◌, ◌≡◌, refl, ap, Option, some, List, [], ◌∷◌, arith, Bytes, length,
  length-take, take, ◌==◌, Bool-cases, Option-cases, inl, inr,
}
use roman_firmware.Usb.{hex_text, string_at, string_chars, tud_descriptor_string_cb}

length-hex_text : (bytes : Bytes) → length (hex_text bytes) ≡ 2 * length bytes
unfolding hex_text
length-hex_text [] = refl
length-hex_text (x ∷ bytes) = omega (arith, length-hex_text bytes)

length-string_chars :
    (board_id mac chars : Bytes) (index : ℕ)
    → length board_id ≡ 8
    → length mac ≡ 6
    → string_chars board_id mac index ≡ some chars
    → length chars ≤ 32
unfolding string_chars
length-string_chars board_id mac chars index h k e = elim (Bool-cases (index == 0)) [
  | inl lang ↦
      let same : 0x0409 ∷ [] ≡ chars = cc (rw (lang, string_chars) at e) in
      omega (arith, ap (length {A = ℕ}) same)
  | inr i0 ↦ elim (Bool-cases (index == 3)) [
    | inl serial ↦
        let same : hex_text board_id ≡ chars = cc (rw (i0, serial, string_chars) at e) in
        omega (arith, ap (length {A = ℕ}) same, length-hex_text board_id)
    | inr i3 ↦ elim (Bool-cases (index == 5)) [
      | inl address ↦
          let same : hex_text mac ≡ chars = cc (rw (i0, i3, address, string_chars) at e) in
          omega (arith, ap (length {A = ℕ}) same, length-hex_text mac)
      | inr i5 ↦ elim (Option-cases (string_at index)) [
        | inl null ↦ cc (rw (i0, i3, i5, null, string_chars) at e)
        | inr (str, found) ↦
            let same : take 32 str ≡ chars = cc (rw (i0, i3, i5, found, string_chars) at e) in
            omega (arith, ap (length {A = ℕ}) same, length-take {0} 32 str)
      ]
    ]
  ]
]

-- Every descriptor that is returned says its own size: the low byte of the header is the number of
-- bytes of the words, the high byte the type, and the words fit in the array of 33. The board id has
-- eight bytes, the address six.
pub descriptor_size :
    (desc_string index : ℕ) (board_id mac : Bytes) (word : ℕ) (chars : List ℕ)
    → length board_id ≡ 8
    → length mac ≡ 6
    → tud_descriptor_string_cb desc_string board_id mac index ≡ some (word ∷ chars)
    → (word % 256 ≡ 2 * length (word ∷ chars))
      × (word / 256 ≡ desc_string)
      × (length (word ∷ chars) ≤ 33)
unfolding tud_descriptor_string_cb
descriptor_size desc_string index board_id mac word chars h k e =
    elim (Option-cases (string_chars board_id mac index)) [
      | inl none_ ↦ cc (rw (none_, tud_descriptor_string_cb) at e)
      | inr (text, found) ↦
          let all : ◌≡◌ {A = Option (List ℕ)}
              (some ((desc_string * 256 + (2 * length text + 2)) ∷ text)) (some (word ∷ chars)) =
            rw (found, tud_descriptor_string_cb) at e in
          let head : desc_string * 256 + (2 * length text + 2) ≡ word = cc in
          let tail : text ≡ chars = cc in
          let short = length-string_chars board_id mac text index h k found in
          (
            omega (arith, ap (length {A = ℕ}) tail),
            omega (arith, ap (length {A = ℕ}) tail),
            omega (arith, ap (length {A = ℕ}) tail),
          )
    ]
