-- ===== src/CString/Search.antt =====
-- Where `strchr` and `strstr` stop, and what `snprintf` keeps.
use roman_firmware.Prelude.{
  ℕ, zero, suc, ◌+◌, ◌/◌, ◌%◌, ltb, length-append, ◌-◌, ◌≤◌, ◌≡◌, ◌≢◌, refl, ap, true, Option, none,
  some, [], ◌∷◌, ◌++◌, arith, Bytes, length, length-take, All, ◌==◌, ==_refl, Bool-cases, inl, inr,
}
use roman_firmware.CString.{strchr, starts, snprintf, push, digits, decimal}

-- No byte of the string is `c`.
abbrev pub Without : ℕ → Bytes → Type 0
Without c = All (λ x. x ≢ c)

-- The first `c` is the one behind a text without it.
pub strchr_first :
    (c : ℕ) (front back : Bytes)
    → Without c front
    → strchr c (front ++ c ∷ back) ≡ some (front, c ∷ back)
unfolding strchr
strchr_first c [] back h = rw (==_refl c) refl
strchr_first c (x ∷ front) back (ne, h) = elim (Bool-cases (x == c)) [
  | inl same ↦ absurd (ne (ground arith))
  | inr other ↦ rw (other, strchr_first c front back h) refl
]

pub starts_append : (text s : Bytes) → starts text (text ++ s) ≡ true
unfolding starts
starts_append [] s = refl
starts_append (t ∷ text) s = ground (arith, starts_append text s)

push-eq-some :
    (x : ℕ) (o : Option (Bytes × Bytes)) (front back : Bytes)
    → push x o ≡ some (front, back)
    → (rest : Bytes) × (front ≡ x ∷ rest) × (o ≡ some (rest, back))
push-eq-some x none front back e = cc
push-eq-some x (some (rest, back')) front back e = (rest, cc, cc)

-- What `strchr` finds: the two parts make up the string, and `c` is not in the first.
pub strchr_sound :
    (c : ℕ) (s front back : Bytes)
    → strchr c s ≡ some (front, back)
    → (s ≡ front ++ back) × Without c front
unfolding strchr
strchr_sound c [] front back e = cc
strchr_sound c (x ∷ s) front back e = elim (Bool-cases (x == c)) [
  | inl same ↦
      let here : ◌≡◌ {A = Option (Bytes × Bytes)} (some ([], x ∷ s)) (some (front, back)) =
        rw (same, strchr) at e in
      let nothing : [] ≡ front = cc in
      let all : x ∷ s ≡ back = cc in rw (← nothing, ← all) (refl, tt)
  | inr other ↦
      let (rest, at_front, found) =
        push-eq-some x (strchr c s) front back (rw (other, strchr) at e) in
      let (parts, clean) = strchr_sound c s rest back found in
      let ne : x ≢ c = λ same. ground arith in rw at_front (ap (λ t. x ∷ t) parts, (ne, clean))
]

pub length-snprintf : (size : ℕ) (text : Bytes) → length (snprintf (suc size) text) ≤ size
unfolding snprintf
length-snprintf size text = omega (arith, length-take (suc size - 1) text)

length-digits : (fuel n : ℕ) → length (digits fuel n) ≤ fuel
unfolding digits
length-digits zero n = omega arith
length-digits (suc fuel) n = elim (Bool-cases (ltb n 10)) [
  | inl one ↦ rw (one, digits) (omega arith)
  | inr more ↦
      rw (more, digits)
        (omega (
          arith,
          length-append (digits fuel (n / 10)) ((b'0' + n % 10) ∷ []),
          length-digits fuel (n / 10),
        ))
]

pub length-decimal : (n : ℕ) → length (decimal n) ≤ 10
unfolding decimal
length-decimal n = length-digits 10 n
