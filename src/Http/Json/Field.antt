-- ===== src/Http/Json/Field.antt =====
-- What a field lookup returns.
use roman_firmware.Prelude.{
  ℕ, zero, suc, ◌-◌, ◌≤◌, ◌≡◌, refl, sym, ap, ◌∙◌, true, some, [], ◌∷◌, ◌++◌, arith, Bytes, length,
  length-append, take, take-short, drop, bind-eq-some, append_assoc,
}
use roman_firmware.CString.{strchr, strstr, starts, snprintf}
use roman_firmware.CString.Search.{
  Without, strchr_first, strchr_sound, starts_append, length-snprintf,
}
use roman_firmware.Http.Json.{quote, skip_blanks, open_quote, json_get_string}

Without-take : (c n : ℕ) (s : Bytes) → Without c s → Without c (take n s)
Without-take c zero s h = tt
Without-take c (suc n) [] h = tt
Without-take c (suc n) (x ∷ s) (ne, h) = (ne, Without-take c n s h)

-- A value that is found fits in the buffer with its NUL, and holds no quote.
pub json_get_string_bounds :
    (json key : Bytes) (size : ℕ) (value : Bytes)
    → json_get_string json key (suc size) ≡ some value
    → (length value ≤ size) × Without quote value
unfolding json_get_string
json_get_string_bounds json key size value e =
    let search = snprintf 128 (quote ∷ key ++ quote ∷ []) in
    let (p1, e1, e) = bind-eq-some (strstr search json) _ e in
    let (p2, e2, e) = bind-eq-some (strchr b':' p1.1) _ e in
    let (p3, e3, e) = bind-eq-some (open_quote (skip_blanks (drop 1 p2.1))) _ e in
    let (p4, e4, e) = bind-eq-some (strchr quote p3) _ e in
    let shown : snprintf (suc size) p4.0 ≡ value = cc in
    let (_, clean) = strchr_sound quote p3 p4.0 p4.1 e4 in
    rw (← shown) (length-snprintf size p4.0, unfold snprintf in Without-take quote _ p4.0 clean)

-- The text that is searched for: the key in quotes.
quoted :
    (key : Bytes)
    → length key ≤ 125
    → snprintf 128 (quote ∷ key ++ quote ∷ []) ≡ quote ∷ key ++ quote ∷ []
unfolding snprintf
quoted key h =
    take-short 127 (quote ∷ key ++ quote ∷ []) (omega (arith, length-append key (quote ∷ [])))

Without-concat : (c : ℕ) (s t : Bytes) → Without c s → Without c t → Without c (s ++ t)
Without-concat c [] t h k = k
Without-concat c (x ∷ s) t (ne, h) k = (ne, Without-concat c s t h k)

module _ (key : Bytes) (rest : Bytes) where
  abbrev pattern_ : Bytes
  pattern_ = quote ∷ key ++ quote ∷ []

  regroup : pattern_ ++ rest ≡ quote ∷ (key ++ quote ∷ rest)
  regroup = append_assoc (quote ∷ key) (quote ∷ []) rest

  key_found :
      strstr pattern_ (b'{' ∷ quote ∷ (key ++ quote ∷ rest))
      ≡ some (b'{' ∷ [], quote ∷ (key ++ quote ∷ rest))
  unfolding strstr
  key_found = rw (here) refl
    where
      here : starts pattern_ (quote ∷ (key ++ quote ∷ rest)) ≡ true
      here = ap (starts pattern_) (sym regroup) ∙ starts_append pattern_ rest

colon_found :
    (key rest : Bytes)
    → Without b':' key
    → strchr b':' (quote ∷ (key ++ quote ∷ b':' ∷ rest))
      ≡ some (quote ∷ key ++ quote ∷ [], b':' ∷ rest)
colon_found key rest plain =
    ap (strchr b':') (sym (regroup key (b':' ∷ rest)))
    ∙ strchr_first b':' (quote ∷ key ++ quote ∷ []) rest
        (Without-concat b':' (quote ∷ key) (quote ∷ []) (omega arith, plain) (omega arith, tt))

-- A field that is printed first in an object is read back, cut to the size of the buffer. The key has
-- at most 125 bytes and no colon, the value no quote.
pub json_get_string-field :
    (key value rest : Bytes) (size : ℕ)
    → length key ≤ 125
    → Without b':' key
    → Without quote value
    → json_get_string
        (b'{' ∷ quote ∷ key ++ (quote ∷ b':' ∷ quote ∷ value ++ (quote ∷ rest)))
        key
        (suc size)
      ≡ some (take size value)
unfolding json_get_string
json_get_string-field key value rest size short plain clean =
    rw
      (
        quoted key short,
        key_found key (b':' ∷ quote ∷ (value ++ quote ∷ rest)),
        colon_found key (quote ∷ (value ++ quote ∷ rest)) plain,
        json_get_string,
      )
      (unfold skip_blanks open_quote in
        rw (strchr_first quote value rest clean, json_get_string)
          (unfold snprintf in
            ap (λ n. some (take n value)) {x = suc size - 1} {y = size} (omega arith)))
