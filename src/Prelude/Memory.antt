-- ===== src/Prelude/Memory.antt =====
-- memcpy into a buffer, and what is read from the buffer afterwards.
use Prim.Native.Nat.{ℕ, zero, suc, ◌+◌, ◌≤◌}
use mathlib.Core.Path.{◌≡◌, refl, ap}
use mathlib.Core.List.{List, [], ◌∷◌, ◌++◌}
use native.Mathlib.Omega.{arith}
use roman_firmware.Prelude.Lists.{length, take, slice}

module _ {ℓ} {A : Type ℓ} where
  -- `memcpy(buf + p, bs, length bs)`; what would fall past the end is dropped.
  unfoldable pub write_at : ℕ → List A → List A → List A
  write_at zero [] buf = buf
  write_at zero (b ∷ bs) [] = []
  write_at zero (b ∷ bs) (x ∷ buf) = b ∷ write_at zero bs buf
  write_at (suc p) bs [] = []
  write_at (suc p) bs (x ∷ buf) = x ∷ write_at p bs buf

  pub length-write_at : (p : ℕ) (bs buf : List A) → length (write_at p bs buf) ≡ length buf
  unfolding write_at
  length-write_at zero [] buf = refl
  length-write_at zero (b ∷ bs) [] = refl
  length-write_at zero (b ∷ bs) (x ∷ buf) = ap suc (length-write_at zero bs buf)
  length-write_at (suc p) bs [] = refl
  length-write_at (suc p) bs (x ∷ buf) = ap suc (length-write_at p bs buf)

  pub slice-write_self :
      (p n : ℕ) (bs buf : List A)
      → length bs ≡ n
      → p + n ≤ length buf
      → slice p n (write_at p bs buf) ≡ bs
  unfolding write_at
  slice-write_self zero zero [] buf e h = refl
  slice-write_self zero (suc n) [] buf e h = absurd (omega arith)
  slice-write_self zero zero (b ∷ bs) buf e h = absurd (omega arith)
  slice-write_self zero (suc n) (b ∷ bs) [] e h = absurd (omega arith)
  slice-write_self zero (suc n) (b ∷ bs) (x ∷ buf) e h =
      ap (λ t. b ∷ t) (slice-write_self zero n bs buf (omega arith) (omega arith))
  slice-write_self (suc p) zero [] [] e h = refl
  slice-write_self (suc p) (suc n) [] [] e h = absurd (omega arith)
  slice-write_self (suc p) n (b ∷ bs) [] e h = absurd (omega arith)
  slice-write_self (suc p) n bs (x ∷ buf) e h = slice-write_self p n bs buf e (omega arith)

  -- Reading before the bytes that were written, and behind them.
  pub slice-write_before :
      (i n p : ℕ) (bs buf : List A) → i + n ≤ p → slice i n (write_at p bs buf) ≡ slice i n buf
  unfolding write_at
  slice-write_before zero zero p bs buf h = refl
  slice-write_before zero (suc n) zero bs buf h = absurd (omega arith)
  slice-write_before zero (suc n) (suc p) bs [] h = refl
  slice-write_before zero (suc n) (suc p) bs (x ∷ buf) h =
      ap (λ t. x ∷ t) (slice-write_before zero n p bs buf (omega arith))
  slice-write_before (suc i) n zero bs buf h = absurd (omega arith)
  slice-write_before (suc i) n (suc p) bs [] h = refl
  slice-write_before (suc i) n (suc p) bs (x ∷ buf) h =
      slice-write_before i n p bs buf (omega arith)

  pub slice-write_after :
      (i n p : ℕ) (bs buf : List A)
      → p + length bs ≤ i
      → slice i n (write_at p bs buf) ≡ slice i n buf
  unfolding write_at
  slice-write_after i n zero [] buf h = refl
  slice-write_after i n zero (b ∷ bs) [] h = refl
  slice-write_after zero n zero (b ∷ bs) (x ∷ buf) h = absurd (omega arith)
  slice-write_after (suc i) n zero (b ∷ bs) (x ∷ buf) h =
      slice-write_after i n zero bs buf (omega arith)
  slice-write_after i n (suc p) bs [] h = refl
  slice-write_after zero n (suc p) bs (x ∷ buf) h = absurd (omega arith)
  slice-write_after (suc i) n (suc p) bs (x ∷ buf) h = slice-write_after i n p bs buf (omega arith)

  pub length-slice : (i n : ℕ) (xs : List A) → i + n ≤ length xs → length (slice i n xs) ≡ n
  length-slice zero zero xs h = refl
  length-slice zero (suc n) [] h = absurd (omega arith)
  length-slice zero (suc n) (x ∷ xs) h = ap suc (length-slice zero n xs (omega arith))
  length-slice (suc i) zero [] h = refl
  length-slice (suc i) (suc n) [] h = absurd (omega arith)
  length-slice (suc i) n (x ∷ xs) h = length-slice i n xs (omega arith)

  -- Two neighbouring ranges are one.
  pub slice_join :
      (i a b j n : ℕ) (xs : List A)
      → i + a ≡ j
      → a + b ≡ n
      → j ≤ length xs
      → slice i a xs ++ slice j b xs ≡ slice i n xs
  slice_join zero zero b zero n xs e f h = ap (λ k. take k xs) {x = b} {y = n} (omega arith)
  slice_join zero zero b (suc j) n xs e f h = absurd (omega arith)
  slice_join zero (suc a) b zero n xs e f h = absurd (omega arith)
  slice_join zero (suc a) b (suc j) n [] e f h = elim h [ ]
  slice_join zero (suc a) b (suc j) zero (x ∷ xs) e f h = absurd (omega arith)
  slice_join zero (suc a) b (suc j) (suc n) (x ∷ xs) e f h =
      ap (λ t. x ∷ t) (slice_join zero a b j n xs (omega arith) (omega arith) (omega arith))
  slice_join (suc i) a b zero n xs e f h = absurd (omega arith)
  slice_join (suc i) a b (suc j) n [] e f h = elim h [ ]
  slice_join (suc i) a b (suc j) n (x ∷ xs) e f h =
      slice_join i a b j n xs (omega arith) f (omega arith)

  -- A range of the part that stands first.
  pub slice-append_less :
      (i n : ℕ) (xs ys : List A) → i + n ≤ length xs → slice i n (xs ++ ys) ≡ slice i n xs
  slice-append_less zero zero xs ys h = refl
  slice-append_less zero (suc n) [] ys h = absurd (omega arith)
  slice-append_less zero (suc n) (x ∷ xs) ys h =
      ap (λ t. x ∷ t) (slice-append_less zero n xs ys (omega arith))
  slice-append_less (suc i) n [] ys h = absurd (omega arith)
  slice-append_less (suc i) n (x ∷ xs) ys h = slice-append_less i n xs ys (omega arith)

  pub slice-take : (i k n : ℕ) (xs : List A) → i + k ≤ n → slice i k (take n xs) ≡ slice i k xs
  slice-take zero zero n xs h = refl
  slice-take zero (suc k) zero xs h = absurd (omega arith)
  slice-take zero (suc k) (suc n) [] h = refl
  slice-take zero (suc k) (suc n) (x ∷ xs) h =
      ap (λ t. x ∷ t) (slice-take zero k n xs (omega arith))
  slice-take (suc i) k zero xs h = absurd (omega arith)
  slice-take (suc i) k (suc n) [] h = refl
  slice-take (suc i) k (suc n) (x ∷ xs) h = slice-take i k n xs (omega arith)
