-- ===== src/Prelude/CharsLaws.antt =====
-- Laws of the methods on texts.
use mathlib.Core.Path.{◌≡◌, refl, sym, ap, ◌∙◌}
use Prim.Native.Nat.{ℕ}
use mathlib.Core.Bool.{Bool, true, false}
use mathlib.Core.Option.{some}
use mathlib.Core.List.{List, [], ◌∷◌, ◌++◌}
use native.Mathlib.Omega.{arith}
use hugrs.Prelude.Tests.{◌==◌}
use hugrs.Prelude.Lists.{All, append_assoc}
use hugrs.Prelude.Chars.{strip_prefix, split_once, trim_start, trim_both, reverse_onto}

pub strip_prefix-append : (p s : List ℕ) → strip_prefix p (p ++ s) ≡ some s
strip_prefix-append [] s = refl
strip_prefix-append (c ∷ p) s = ground (arith, strip_prefix-append p s)

-- A split at the first separator, where none stands before it.
pub split_once-append :
    (c : ℕ) (xs ys : List ℕ)
    → All (λ x. (x == c) ≡ false) xs
    → split_once c (xs ++ c ∷ ys) ≡ some (xs, ys)
split_once-append c [] ys h = ground arith
split_once-append c (x ∷ xs) ys h = rw (h.0, split_once-append c xs ys h.1) refl

just_equal : {A : Type 0} (a b : A) → some a ≡ some b → a ≡ b
just_equal a b h = cc

pub append_cancel : (p s t : List ℕ) → p ++ s ≡ p ++ t → s ≡ t
append_cancel p s t h =
    just_equal s t (sym (strip_prefix-append p s) ∙ ap (strip_prefix p) h ∙ strip_prefix-append p t)

-- Texts that are equal up to a separator are equal before and after it.
pub split_equal :
    (c : ℕ) (xs ys us vs : List ℕ)
    → All (λ x. (x == c) ≡ false) xs
    → All (λ x. (x == c) ≡ false) us
    → xs ++ c ∷ ys ≡ us ++ c ∷ vs
    → (xs ≡ us) × (ys ≡ vs)
split_equal c xs ys us vs hx hu h = (ap (λ p. p.0) both, ap (λ p. p.1) both)
  where
    both : ◌≡◌ {A = List ℕ × List ℕ} (xs, ys) (us, vs)
    both =
        just_equal _ _
          (sym (split_once-append c xs ys hx) ∙ ap (split_once c) h ∙ split_once-append c us vs hu)

reverse_onto-append :
    (acc xs ys : List ℕ) → reverse_onto acc (xs ++ ys) ≡ reverse_onto (reverse_onto acc xs) ys
reverse_onto-append acc [] ys = refl
reverse_onto-append acc (x ∷ xs) ys = reverse_onto-append (x ∷ acc) xs ys

reverse_onto-acc : (acc xs : List ℕ) → reverse_onto acc xs ≡ reverse_onto [] xs ++ acc
reverse_onto-acc acc [] = refl
reverse_onto-acc acc (x ∷ xs) =
    reverse_onto-acc (x ∷ acc) xs
    ∙ sym (append_assoc (reverse_onto [] xs) (x ∷ []) acc)
    ∙ ap (λ r. r ++ acc) (sym (reverse_onto-acc (x ∷ []) xs))

reverse_onto_twice :
    (acc bcc xs : List ℕ) → reverse_onto acc (reverse_onto bcc xs) ≡ reverse_onto (xs ++ acc) bcc
reverse_onto_twice acc bcc [] = refl
reverse_onto_twice acc bcc (x ∷ xs) = reverse_onto_twice acc (x ∷ bcc) xs

-- A text that begins, or ends, with a character that is not trimmed.
abbrev pub Begins : (ℕ → Bool) → List ℕ → Type 0
Begins p m = (c : ℕ) × (rest : List ℕ) × (m ≡ c ∷ rest) × (p c ≡ false)

abbrev pub Ends : (ℕ → Bool) → List ℕ → Type 0
Ends p m = (c : ℕ) × (rest : List ℕ) × (m ≡ rest ++ c ∷ []) × (p c ≡ false)

trim_start-pad :
    (p : ℕ → Bool) (pad : List ℕ) (c : ℕ) (rest : List ℕ)
    → All (λ x. p x ≡ true) pad
    → p c ≡ false
    → trim_start p (pad ++ c ∷ rest) ≡ c ∷ rest
trim_start-pad p [] c rest h out = rw out refl
trim_start-pad p (x ∷ pad) c rest h out = rw h.0 (trim_start-pad p pad c rest h.1 out)

All-reverse_onto :
    (P : ℕ → Type 0) (acc xs : List ℕ) → All P xs → All P acc → All P (reverse_onto acc xs)
All-reverse_onto P acc [] h k = k
All-reverse_onto P acc (x ∷ xs) h k = All-reverse_onto P (x ∷ acc) xs h.1 (h.0, k)

-- What is around such a text goes.
pub trim_both-pad :
    (p : ℕ → Bool) (left m right : List ℕ)
    → All (λ x. p x ≡ true) left
    → All (λ x. p x ≡ true) right
    → Begins p m
    → Ends p m
    → trim_both p (left ++ (m ++ right)) ≡ m
trim_both-pad p left m right hl hr (c, rest, begins, out) (d, front, ends, out') =
    ap (λ t. reverse_onto [] (trim_start p (reverse_onto [] t))) at_left
    ∙ ap (λ t. reverse_onto [] (trim_start p t)) turned
    ∙ ap (λ t. reverse_onto [] t)
        (trim_start-pad p (reverse_onto [] right) d (reverse_onto [] front)
          (All-reverse_onto (λ x. p x ≡ true) [] right hr tt) out')
    ∙ reverse_onto_twice (d ∷ []) [] front
    ∙ sym ends
  where
    at_left : trim_start p (left ++ (m ++ right)) ≡ m ++ right
    at_left = rw begins (trim_start-pad p left c (rest ++ right) hl out)

    turned : reverse_onto [] (m ++ right) ≡ reverse_onto [] right ++ d ∷ reverse_onto [] front
    turned =
        reverse_onto-append [] m right
        ∙ reverse_onto-acc (reverse_onto [] m) right
        ∙ ap (λ t. reverse_onto [] right ++ t)
            (ap (reverse_onto []) ends ∙ reverse_onto-append [] front (d ∷ []))
