-- ===== src/Prelude/Chars.antt =====
-- The methods of Rust's `str` that the source uses, on the code points of a text.
use Prim.Native.Char.{code}
use Prim.Native.Nat.{ℕ, zero, suc}
use Prim.Native.String.{String}
use mathlib.Core.Bool.{Bool, true, false, ◌&&◌, ◌||◌}
use mathlib.Core.Option.{Option, none, some}
use mathlib.Core.List.{List, [], ◌∷◌}
use hugrs.Prelude.Tests.{leb, ◌==◌, if◌then◌else◌}

abbrev pub chars : String → List ℕ
chars String.[] = []
chars (String.◌∷◌ c s) = code c ∷ chars s

-- char::is_whitespace, Unicode's White_Space
abbrev pub is_whitespace : ℕ → Bool
is_whitespace c =
    (leb 9 c && leb c 13)
    || c == 32
    || c == 133
    || c == 160
    || c == 5760
    || (leb 8192 c && leb c 8202)
    || c == 8232
    || c == 8233
    || c == 8239
    || c == 8287
    || c == 12288

abbrev pub trim_start : (ℕ → Bool) → List ℕ → List ℕ
trim_start p [] = []
trim_start p (c ∷ cs) = let rest = trim_start p cs in if p c then rest else c ∷ cs

abbrev pub reverse_onto : List ℕ → List ℕ → List ℕ
reverse_onto acc [] = acc
reverse_onto acc (c ∷ cs) = reverse_onto (c ∷ acc) cs

abbrev pub trim_both : (ℕ → Bool) → List ℕ → List ℕ
trim_both p cs = reverse_onto [] (trim_start p (reverse_onto [] (trim_start p cs)))

abbrev pub same_chars : List ℕ → List ℕ → Bool
same_chars [] [] = true
same_chars (c ∷ cs) (d ∷ ds) = (c == d) && same_chars cs ds
same_chars _ _ = false

abbrev pub is_empty : List ℕ → Bool
is_empty [] = true
is_empty (c ∷ cs) = false

abbrev pub strip_prefix : List ℕ → List ℕ → Option (List ℕ)
strip_prefix [] s = some s
strip_prefix (c ∷ p) [] = none
strip_prefix (c ∷ p) (d ∷ s) = if c == d then strip_prefix p s else none

abbrev pub starts_with : List ℕ → List ℕ → Bool
starts_with [] s = true
starts_with (c ∷ p) [] = false
starts_with (c ∷ p) (d ∷ s) = c == d && starts_with p s

-- `s.find(p)` as the texts before and from the first occurrence.
abbrev pub cons_before : ℕ → Option (List ℕ × List ℕ) → Option (List ℕ × List ℕ)
cons_before c none = none
cons_before c (some (before, after)) = some (c ∷ before, after)

abbrev pub find_text : List ℕ → List ℕ → Option (List ℕ × List ℕ)
find_text p [] = if is_empty p then some ([], []) else none
find_text p (c ∷ s) =
    let rest = find_text p s in
    if starts_with p (c ∷ s) then some ([], c ∷ s) else cons_before c rest

abbrev pub contains : List ℕ → List ℕ → Bool
contains p s = elim (find_text p s) [ none ↦ false | some x ↦ true ]

-- `s.split_once(c)`
abbrev pub split_once : ℕ → List ℕ → Option (List ℕ × List ℕ)
split_once c [] = none
split_once c (d ∷ s) =
    let rest = split_once c s in if d == c then some ([], s) else cons_before d rest

-- The first piece of a split grows by a character.
abbrev pub cons_piece : ℕ → List (List ℕ) → List (List ℕ)
cons_piece c [] = (c ∷ []) ∷ []
cons_piece c (p ∷ ps) = (c ∷ p) ∷ ps

-- `s.split(c)`
abbrev pub split : ℕ → List ℕ → List (List ℕ)
split c [] = [] ∷ []
split c (d ∷ s) = let rest = split c s in if d == c then [] ∷ rest else cons_piece d rest

-- `s.splitn(n, c)`: at most n pieces, the last with what is left.
abbrev pub splitn : ℕ → ℕ → List ℕ → List (List ℕ)
splitn zero c s = []
splitn (suc zero) c s = s ∷ []
splitn (suc (suc n)) c s = elim (split_once c s) [
  | none ↦ s ∷ []
  | some (piece, rest) ↦ piece ∷ splitn (suc n) c rest
]
