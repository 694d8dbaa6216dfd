-- ===== src/Metadata/Catalog/Indexed.antt =====
-- Ids and names of files are keys: no two rows share one, and no id is above the counter.
use hugrs.Prelude.{
  ◌≤◌, ◌≡◌, refl, sym, Bool, false, ◌&&◌, List, [], ◌∷◌, ◌++◌, map, str_eq, ◌==◌, any_of, select,
  All, Bool-cases, inl, inr, arith, ap, ◌∙◌, subst₂, str_eq_comm,
}
use hugrs.Metadata.Tables.{File, Db, is_named}

abbrev pub Distinct : List File → Type 0
Distinct [] = Unit
Distinct (f ∷ fs) =
    (any_of (λ (g : File). g.id == f.id) fs ≡ false)
    × (any_of (is_named f.name f.source) fs ≡ false)
    × Distinct fs

pub record IsIndexed (db : Db) : Type 0 where
  pub distinct : Distinct db.files
  pub bounded : All (λ (f : File). f.id ≤ db.last_file_id) db.files

any_of-select :
    (p q : File → Bool) (fs : List File) → any_of p fs ≡ false → any_of p (select q fs) ≡ false
any_of-select p q [] h = refl
any_of-select p q (f ∷ fs) h = ground (arith, any_of-select p q fs)

pub any_of-map :
    (p : File → Bool) (g : File → File) (fs : List File)
    → ((f : File) → p (g f) ≡ p f)
    → any_of p (map g fs) ≡ any_of p fs
any_of-map p g [] h = refl
any_of-map p g (f ∷ fs) h = rw (h f, any_of-map p g fs h) refl

-- A change of a row that keeps its keys.
pub record KeepsKeys (g : File → File) : Type 0 where
  pub id : (f : File) → (g f).id ≡ f.id
  pub name : (f : File) → (g f).name ≡ f.name
  pub source : (f : File) → (g f).source ≡ f.source

pub Distinct-map :
    (g : File → File) (fs : List File) → KeepsKeys g → Distinct fs → Distinct (map g fs)
Distinct-map g [] k d = tt
Distinct-map g (f ∷ fs) k (ids, names, d) = (
  rw (k.id f) (any_of-map (λ x. x.id == f.id) g fs (λ x. ap (λ i. i == f.id) (k.id x)) ∙ ids),
  subst₂ (λ n s. any_of (is_named n s) (map g fs) ≡ false) (sym (k.name f)) (sym (k.source f))
      (any_of-map (is_named f.name f.source) g fs (λ x.
          subst₂ (λ n s. (str_eq n f.name && str_eq s f.source) ≡ is_named f.name f.source x)
            (sym (k.name x)) (sym (k.source x)) refl)
        ∙ names),
  Distinct-map g fs k d,
)

pub Distinct-select : (p : File → Bool) (fs : List File) → Distinct fs → Distinct (select p fs)
Distinct-select p [] d = tt
Distinct-select p (f ∷ fs) (ids, names, d) = elim (Bool-cases (p f)) [
  | inl stays ↦
      rw stays (any_of-select _ p fs ids, any_of-select _ p fs names, Distinct-select p fs d)
  | inr goes ↦ rw goes (Distinct-select p fs d)
]

any_of-last :
    (p : File → Bool) (fs : List File) (x : File)
    → any_of p fs ≡ false
    → p x ≡ false
    → any_of p (fs ++ x ∷ []) ≡ false
any_of-last p [] x h e = ground arith
any_of-last p (f ∷ fs) x h e = ground (arith, any_of-last p fs x)

pub Distinct-append :
    (fs : List File) (x : File)
    → Distinct fs
    → any_of (is_named x.name x.source) fs ≡ false
    → All (λ (f : File). (x.id == f.id) ≡ false) fs
    → Distinct (fs ++ x ∷ [])
Distinct-append [] x d n i = (refl, refl, tt)
Distinct-append (f ∷ fs) x (ids, names, d) n (i, is) = (
  any_of-last (λ (g : File). g.id == f.id) fs x ids i,
  any_of-last (is_named f.name f.source) fs x names
      (ground (arith, str_eq_comm x.name f.name, str_eq_comm x.source f.source)),
  Distinct-append fs x d (ground arith) is,
)
