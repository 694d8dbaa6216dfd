-- ===== src/Metadata/Catalog/Parts.antt =====
-- The parts of a file, after a link is added and after the links of a file go.
use hugrs.Prelude.{
  ℕ, ◌≡◌, refl, sym, ap, ◌∙◌, String, Bool, true, false, not, ◌&&◌, Option, none, some, List, [],
  ◌∷◌, ◌++◌, ◌==◌, if◌then◌else◌, any_of, select, find, Bool-cases, inl, inr, arith, subst₂,
}
use hugrs.Metadata.Tables.{FileChunk, is_at}
use hugrs.Metadata.Catalog.Finding.{find-append, or_last, find-select, find-none}

abbrev pub sha_of : Option FileChunk → Option String
sha_of none = none
sha_of (some l) = some l.sha256

-- `is_chunk_linked`, on the table of links alone.
abbrev pub parts_of : List FileChunk → ℕ → ℕ → Option String
parts_of ls file_id i = sha_of (find (is_at file_id i) ls)

abbrev pub at_place : FileChunk → ℕ → ℕ → Bool
at_place l id i = id == l.file_id && i == l.chunk_index

-- One part of one file is another.
abbrev pub with_part : FileChunk → (ℕ → ℕ → Option String) → ℕ → ℕ → Option String
with_part l parts id i = if at_place l id i then some l.sha256 else parts id i

same_place :
    (l : FileChunk) (id i : ℕ) → at_place l id i ≡ true → (id ≡ l.file_id) × (i ≡ l.chunk_index)
same_place l id i h = ground arith

sha_of-or_last :
    (p : FileChunk → Bool) (l : FileChunk) (o : Option FileChunk)
    → p l ≡ false
    → sha_of (or_last p l o) ≡ sha_of o
sha_of-or_last p l none h = rw h refl
sha_of-or_last p l (some x) h = refl

pub parts-append :
    (l : FileChunk) (ls : List FileChunk) (id i : ℕ)
    → any_of (is_at l.file_id l.chunk_index) ls ≡ false
    → parts_of (ls ++ l ∷ []) id i ≡ with_part l (parts_of ls) id i
parts-append l ls id i free =
    ap sha_of (find-append (is_at id i) ls l) ∙ elim (Bool-cases (at_place l id i)) [
      | inl here ↦ rw (here, there here, placed here) refl
      | inr other ↦ rw other (sha_of-or_last (is_at id i) l (find (is_at id i) ls) (ground arith))
    ]
  where
    there : at_place l id i ≡ true → find (is_at id i) ls ≡ none
    there here = find-none (is_at id i) ls (
        subst₂ (λ x y. any_of (is_at x y) ls ≡ false) (sym (same_place l id i here).0)
          (sym (same_place l id i here).1) free)

    placed : at_place l id i ≡ true → is_at id i l ≡ true
    placed here = ground arith

any_of-not :
    (p : FileChunk → Bool) (ls : List FileChunk) → any_of p (select (λ x. not (p x)) ls) ≡ false
any_of-not p [] = refl
any_of-not p (l ∷ ls) = ground (arith, any_of-not p ls)

pub parts-replace :
    (l : FileChunk) (ls : List FileChunk) (id i : ℕ)
    → parts_of (select (λ x. not (is_at l.file_id l.chunk_index x)) ls ++ l ∷ []) id i
      ≡ with_part l (parts_of ls) id i
parts-replace l ls id i =
    parts-append l (select is_other ls) id i (any_of-not (is_at l.file_id l.chunk_index) ls)
    ∙ elim (Bool-cases (at_place l id i)) [
      | inl here ↦ rw here refl
      | inr other ↦
          rw other (ap sha_of (find-select (is_at id i) is_other ls (λ x at. elsewhere x other at)))
    ]
  where
    is_other : FileChunk → Bool
    is_other x = not (is_at l.file_id l.chunk_index x)

    elsewhere : (x : FileChunk) → at_place l id i ≡ false → is_at id i x ≡ true → is_other x ≡ true
    elsewhere x other at = ground arith

-- The links of other files.
pub parts-select :
    (gone id i : ℕ) (ls : List FileChunk)
    → (id == gone) ≡ false
    → parts_of (select (λ l. not (l.file_id == gone)) ls) id i ≡ parts_of ls id i
parts-select gone id i ls h =
    ap sha_of (find-select (is_at id i) (λ l. not (l.file_id == gone)) ls (λ l at. ground arith))
