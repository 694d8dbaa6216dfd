-- ===== src/Metadata/Catalog/Finding.antt =====
-- The first row that passes a test, after rows are changed, added or deleted.
use hugrs.Prelude.{
  ◌≡◌, refl, ap, ◌∙◌, String, Bool, true, false, Option, none, some, List, [], ◌∷◌, ◌++◌, map,
  eq_iff, ◌==◌, if◌then◌else◌, any_of, select, find, All, All-mono, All-both, subst, subst₂,
  All-find, Bool-cases, inl, inr, arith, str_eq_comm,
}
use hugrs.Metadata.Tables.{File, is_named}
use hugrs.Metadata.Catalog.Indexed.{Distinct}

module _ {A : Type 0} where
  abbrev pub map_some : (A → A) → Option A → Option A
  map_some g none = none
  map_some g (some a) = some (g a)

  pub find-map :
      (p : A → Bool) (g : A → A) (xs : List A)
      → ((x : A) → p (g x) ≡ p x)
      → find p (map g xs) ≡ map_some g (find p xs)
  find-map p g [] h = refl
  find-map p g (x ∷ xs) h = elim (Bool-cases (p x)) [
    | inl t ↦ rw (h x, t) refl
    | inr f ↦ rw (h x, f) (find-map p g xs h)
  ]

  abbrev pub or_last : (A → Bool) → A → Option A → Option A
  or_last p x none = if p x then some x else none
  or_last p x (some y) = some y

  pub find-append :
      (p : A → Bool) (xs : List A) (x : A) → find p (xs ++ x ∷ []) ≡ or_last p x (find p xs)
  find-append p [] x = refl
  find-append p (y ∷ ys) x = elim (Bool-cases (p y)) [
    | inl t ↦ rw t refl
    | inr f ↦ rw f (find-append p ys x)
  ]

  -- Deleting rows that do not pass the test.
  pub find-select :
      (p q : A → Bool) (xs : List A)
      → ((x : A) → p x ≡ true → q x ≡ true)
      → find p (select q xs) ≡ find p xs
  find-select p q [] h = refl
  find-select p q (x ∷ xs) h = ground (arith, h x, find-select p q xs h)

  pub find-select_none :
      (p q : A → Bool) (xs : List A) → find p xs ≡ none → find p (select q xs) ≡ none
  find-select_none p q [] h = refl
  find-select_none p q (x ∷ xs) h = ground (arith, find-select_none p q xs)

  pub found_here :
      (p : A → Bool) (x : A) (xs : List A) (y : A) → find p (x ∷ xs) ≡ some y → p x ≡ true → x ≡ y
  found_here p x xs y h px = ground arith

  pub All-not_any : (p : A → Bool) (xs : List A) → any_of p xs ≡ false → All (λ x. p x ≡ false) xs
  All-not_any p [] h = tt
  All-not_any p (x ∷ xs) h = (ground arith, All-not_any p xs (ground arith))

  pub find-select-some :
      (p q : A → Bool) (xs : List A) (y : A)
      → find p xs ≡ some y
      → q y ≡ true
      → find p (select q xs) ≡ some y
  find-select-some p q [] y h t = absurd (ground arith)
  find-select-some p q (x ∷ xs) y h t = elim (Bool-cases (p x)) [
    | inl px ↦ rw (ap q (found_here p x xs y h px) ∙ t, px) (ap some (found_here p x xs y h px))
    | inr px ↦ ground (arith, px, h, find-select-some p q xs y)
  ]

  pub find-none : (p : A → Bool) (xs : List A) → any_of p xs ≡ false → find p xs ≡ none
  find-none p [] h = refl
  find-none p (x ∷ xs) h = ground (arith, find-none p xs)

-- A row that has the name of another, or its id, is that row.
abbrev pub Owns : File → File → Type 0
Owns f g = ((g.id == f.id) ≡ true → g ≡ f) × (is_named f.name f.source g ≡ true → g ≡ f)

pub find-Owns :
    (p : File → Bool) (fs : List File) (f : File)
    → Distinct fs
    → find p fs ≡ some f
    → All (Owns f) fs
find-Owns p [] f d h = tt
find-Owns p (x ∷ xs) f (ids, names, d) h = elim (Bool-cases (p x)) [
  | inl here ↦
      subst (λ g. All (Owns g) (x ∷ xs)) (found_here p x xs f h here)
        ((λ e. refl, λ e. refl), All-mono (λ g a. a) xs (others ids names))
  | inr later ↦ (first (find_later later), find-Owns p xs f d (find_later later))
]
  where
    find_later : p x ≡ false → find p xs ≡ some f
    find_later later = ground (arith, h, later)

    others :
        any_of (λ (g : File). g.id == x.id) xs ≡ false
        → any_of (is_named x.name x.source) xs ≡ false
        → All (Owns x) xs
    others i n =
        All-both (λ g a b. (λ e. absurd (ground arith), λ e. absurd (ground arith))) xs
          (All-not_any (λ (g : File). g.id == x.id) xs i)
          (All-not_any (is_named x.name x.source) xs n)

    first : find p xs ≡ some f → Owns f x
    first found = (
      λ e. absurd (
          ground
            (arith, All-find _ p xs f (All-not_any (λ (g : File). g.id == x.id) xs ids) found)),
      λ e. absurd (
          ground (
            arith,
            str_eq_comm x.name f.name,
            str_eq_comm x.source f.source,
            All-find _ p xs f (All-not_any (is_named x.name x.source) xs names) found,
          )),
    )

pub named_alike :
    (name source : String) (f : File)
    → is_named name source f ≡ true
    → (f.name ≡ name) × (f.source ≡ source)
named_alike name source f h =
    ((eq_iff f.name name).0 (ground arith), (eq_iff f.source source).0 (ground arith))

-- Among rows that are distinct, a found row that is deleted leaves none with its name.
pub find-select_gone :
    (name source : String) (q : File → Bool) (fs : List File) (f : File)
    → Distinct fs
    → find (is_named name source) fs ≡ some f
    → q f ≡ false
    → find (is_named name source) (select q fs) ≡ none
find-select_gone name source q [] f d h e = refl
find-select_gone name source q (x ∷ xs) f (ids, names, d) h e =
    elim (Bool-cases (is_named name source x)) [
      | inl here ↦ rw (ap q (found_here (is_named name source) x xs f h here) ∙ e) (
          find-select_none (is_named name source) q xs (
            find-none (is_named name source) xs (
              subst₂ (λ n s. any_of (is_named n s) xs ≡ false) (named_alike name source x here).0
                (named_alike name source x here).1 names)))
      | inr later ↦ ground (arith, later, find-select_gone name source q xs f d)
    ]
