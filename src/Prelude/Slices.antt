-- ===== src/Prelude/Slices.antt =====
-- Parts of a byte string, `&data[from..to]`.
use Prim.Native.Nat.{ℕ, zero, suc, ◌+◌, ◌-◌, ◌≤◌}
use mathlib.Core.Path.{◌≡◌, refl, ap, sym, ◌∙◌}
use mathlib.Core.List.{List, [], ◌∷◌, ◌++◌}
use native.Mathlib.Omega.{arith}
use hugrs.Prelude.Lists.{length, take, drop, length-take, length-drop}

abbrev pub slice {ℓ} : {A : Type ℓ} → ℕ → ℕ → List A → List A
slice from to xs = take (to - from) (drop from xs)

module _ {ℓ} {A : Type ℓ} where
  drop-nil : (n : ℕ) → ◌≡◌ {A = List A} (drop n []) []
  drop-nil zero = refl
  drop-nil (suc n) = refl

  take-nil : (n : ℕ) → ◌≡◌ {A = List A} (take n []) []
  take-nil zero = refl
  take-nil (suc n) = refl

  take_at : (m n : ℕ) (xs : List A) → m ≡ n → take m xs ≡ take n xs
  take_at m n xs e = ap (λ k. take k xs) e

  drop_at : (m n : ℕ) (xs : List A) → m ≡ n → drop m xs ≡ drop n xs
  drop_at m n xs e = ap (λ k. drop k xs) e

  drop-drop : (m n : ℕ) (xs : List A) → drop m (drop n xs) ≡ drop (n + m) xs
  drop-drop m zero xs = drop_at m (0 + m) xs (omega arith)
  drop-drop m (suc n) [] = drop-nil m ∙ sym (drop-nil (suc n + m))
  drop-drop m (suc n) (x ∷ xs) =
      drop-drop m n xs ∙ drop_at (suc (n + m)) (suc n + m) (x ∷ xs) (omega arith)

  take-take : (m n : ℕ) (xs : List A) → m ≤ n → take m (take n xs) ≡ take m xs
  take-take zero n xs h = refl
  take-take (suc m) zero xs h = absurd (omega arith)
  take-take (suc m) (suc n) [] h = refl
  take-take (suc m) (suc n) (x ∷ xs) h = ap (λ r. x ∷ r) (take-take m n xs (omega arith))

  drop-take : (a n : ℕ) (xs : List A) → drop a (take n xs) ≡ take (n - a) (drop a xs)
  drop-take zero n xs = take_at n (n - 0) xs (omega arith)
  drop-take (suc a) zero xs = take_at 0 (0 - suc a) (drop (suc a) xs) (omega arith)
  drop-take (suc a) (suc n) [] = sym (take-nil (suc n - suc a))
  drop-take (suc a) (suc n) (x ∷ xs) =
      drop-take a n xs ∙ take_at (n - a) (suc n - suc a) (drop a xs) (omega arith)

  take-split : (m n : ℕ) (xs : List A) → take m xs ++ take n (drop m xs) ≡ take (m + n) xs
  take-split zero n xs = take_at n (0 + n) xs (omega arith)
  take-split (suc m) n [] = take-nil n ∙ sym (take-nil (suc m + n))
  take-split (suc m) n (x ∷ xs) =
      ap (λ r. x ∷ r) (take-split m n xs) ∙ take_at (suc (m + n)) (suc m + n) (x ∷ xs) (omega arith)

  -- A part of a part.
  pub slice-slice :
      (i j a b : ℕ) (xs : List A)
      → i ≤ j
      → a + j ≤ b
      → slice i j (slice a b xs) ≡ slice (a + i) (a + j) xs
  slice-slice i j a b xs h k =
      ap (take (j - i)) (drop-take i (b - a) (drop a xs))
      ∙ take-take (j - i) (b - a - i) (drop i (drop a xs)) (omega arith)
      ∙ ap (take (j - i)) (drop-drop i a xs)
      ∙ take_at (j - i) (a + j - (a + i)) (drop (a + i) xs) (omega arith)

  -- Neighbouring parts.
  pub slice-append :
      (a b c : ℕ) (xs : List A) → a ≤ b → b ≤ c → slice a b xs ++ slice b c xs ≡ slice a c xs
  slice-append a b c xs h k =
      ap (λ r. slice a b xs ++ take (c - b) r)
        (drop_at b (a + (b - a)) xs (omega arith) ∙ sym (drop-drop (b - a) a xs))
      ∙ take-split (b - a) (c - b) (drop a xs)
      ∙ take_at (b - a + (c - b)) (c - a) (drop a xs) (omega arith)

  pub length-slice : (a b : ℕ) (xs : List A) → a ≤ b → b ≤ length xs → length (slice a b xs) ≡ b - a
  length-slice a b xs h k = omega (arith, length-take (b - a) (drop a xs), length-drop a xs)

  take-length : (xs : List A) → take (length xs) xs ≡ xs
  take-length [] = refl
  take-length (x ∷ xs) = ap (λ r. x ∷ r) (take-length xs)

  pub slice_full : (xs : List A) → slice 0 (length xs) xs ≡ xs
  slice_full xs = take_at (length xs - 0) (length xs) xs (omega arith) ∙ take-length xs

  pub slice-drop : (a b n : ℕ) (xs : List A) → slice a b (drop n xs) ≡ slice (n + a) (n + b) xs
  slice-drop a b n xs =
      ap (take (b - a)) (drop-drop a n xs)
      ∙ take_at (b - a) (n + b - (n + a)) (drop (n + a) xs) (omega arith)

  pub slice-take : (n : ℕ) (xs : List A) → take n xs ≡ slice 0 n xs
  slice-take n xs = take_at n (n - 0) xs (omega arith)

  pub slice_empty : (a b : ℕ) (xs : List A) → b ≤ a → slice a b xs ≡ []
  slice_empty a b xs h = take_at (b - a) 0 (drop a xs) (omega arith)

  pub slice_at : (a b c d : ℕ) (xs : List A) → a ≡ c → b ≡ d → slice a b xs ≡ slice c d xs
  slice_at a b c d xs p q = rw (p, q)
