-- ===== src/Metadata/Catalog/Naming.antt =====
-- The deletions by repo and by name, seen through the catalogue.
use hugrs.Prelude.{
  ℕ, ◌≡◌, refl, sym, ap, ◌∙◌, String, Bool, true, false, ◌&&◌, Option, none, some, List, [], ◌∷◌,
  map, ◌==◌, if◌then◌else◌, any_of, select, find, Bool-cases, inl, inr, arith, Option-cases, str_eq,
  eq_iff, All, All-find, find-test,
}
use hugrs.Metadata.Tables.{File, FileChunk, Db, is_named}
use hugrs.Metadata.Deletion.{delete_file_by_id_tx, delete_file, delete_files_by_repo, repo_file_ids}
use hugrs.Metadata.Catalog.{keep_unless_repo}
use hugrs.Metadata.Catalog.Indexed.{IsIndexed, Distinct}
use hugrs.Metadata.Catalog.Finding.{find-Owns, Owns, named_alike, found_here}
use hugrs.Metadata.Catalog.Removing.{
  entry_in, entries_at, drop_ids, delete_by_id-entries, delete_by_id-IsIndexed, delete_ids-entries,
  delete_ids-IsIndexed, delete_ids-last_id,
}

-- The ids of a repo are those of its files.
has_id :
    (repo : String) (fs : List File) (f : File)
    → All (Owns f) fs
    → any_of (λ id. f.id == id) (map (λ (g : File). g.id) (select (λ g. str_eq g.repo repo) fs))
      ≡ true
    → str_eq f.repo repo ≡ true
has_id repo [] f a h = absurd (ground arith)
has_id repo (x ∷ xs) f (o, a) h = elim (Bool-cases (str_eq x.repo repo)) [
  | inl here ↦ elim (Bool-cases (f.id == x.id)) [
    | inl same ↦ ap (λ (g : File). str_eq g.repo repo) (sym (o.0 (ground arith))) ∙ here
    | inr other ↦ has_id repo xs f a (ground (arith, h))
  ]
  | inr there ↦ has_id repo xs f a (ground (arith, h))
]

id_listed :
    (repo : String) (p : File → Bool) (fs : List File) (f : File)
    → find p fs ≡ some f
    → str_eq f.repo repo ≡ true
    → any_of (λ id. f.id == id) (map (λ (g : File). g.id) (select (λ g. str_eq g.repo repo) fs))
      ≡ true
id_listed repo p [] f e h = absurd (ground arith)
id_listed repo p (x ∷ xs) f e h = elim (Bool-cases (p x)) [
  | inl here ↦
      let same = found_here p x xs f e here in
      rw (ap (λ (g : File). str_eq g.repo repo) same ∙ h)
        (ground (arith, ap (λ (g : File). g.id) same))
  | inr later ↦ ground (arith, later, id_listed repo p xs f (ground (arith, e, later)) h)
]

delete_repo-found :
    (repo : String) (p : File → Bool) (ls : List FileChunk) (fs : List File) (o : Option File)
    → Distinct fs
    → find p fs ≡ o
    → drop_ids (map (λ (g : File). g.id) (select (λ g. str_eq g.repo repo) fs)) (entry_in ls o)
      ≡ keep_unless_repo repo (entry_in ls o)
delete_repo-found repo p ls fs none d e = refl
delete_repo-found repo p ls fs (some f) d e = elim (Bool-cases (str_eq f.repo repo)) [
  | inl of_repo ↦ rw (of_repo, id_listed repo p fs f e of_repo) refl
  | inr other ↦ rw (other, unlisted other) refl
]
  where
    unlisted :
        str_eq f.repo repo ≡ false
        → any_of (λ id. f.id == id) (map (λ (g : File). g.id) (select (λ g. str_eq g.repo repo) fs))
          ≡ false
    unlisted other = ground (arith, other, has_id repo fs f (find-Owns p fs f d e))

pub delete_files_by_repo-entries :
    (now repo : String) (db : Db) (name source : String)
    → IsIndexed db
    → entries_at (delete_files_by_repo now repo db).1 name source
      ≡ keep_unless_repo repo (entries_at db name source)
unfolding delete_files_by_repo
delete_files_by_repo-entries now repo db name source v =
    delete_ids-entries now (repo_file_ids repo db) db name source v
    ∙ delete_repo-found repo (is_named name source) db.file_chunks db.files _ v.distinct refl

==_refl : (a : ℕ) → (a == a) ≡ true
==_refl a = ground arith

-- The file that has the name goes, and no other.
delete_named-found :
    (name source n s : String) (ls : List FileChunk) (fs : List File) (f : File) (o : Option File)
    → Distinct fs
    → find (is_named name source) fs ≡ some f
    → find (is_named n s) fs ≡ o
    → drop_ids (f.id ∷ []) (entry_in ls o)
      ≡ (if str_eq name n && str_eq source s then none else entry_in ls o)
delete_named-found name source n s ls fs f none d e e' = ground arith
delete_named-found name source n s ls fs f (some g) d e e' =
    elim (Bool-cases (str_eq name n && str_eq source s)) [
      | inl same ↦ rw (same, ap (λ (h : File). h.id == f.id) (same_row same), ==_refl f.id) refl
      | inr other ↦ rw (other, other_id other) refl
    ]
  where
    owned : Owns f g
    owned = All-find (Owns f) (is_named n s) fs g (find-Owns (is_named name source) fs f d e) e'

    f_named : (f.name ≡ name) × (f.source ≡ source)
    f_named = named_alike name source f (find-test (is_named name source) fs f e)

    g_named : (g.name ≡ n) × (g.source ≡ s)
    g_named = named_alike n s g (find-test (is_named n s) fs g e')

    same_row : (str_eq name n && str_eq source s) ≡ true → g ≡ f
    same_row same = owned.1 (
        rw
          (
            (eq_iff g.name f.name).1
                (g_named.0 ∙ sym ((eq_iff name n).0 (ground arith)) ∙ sym f_named.0),
            (eq_iff g.source f.source).1
                (g_named.1 ∙ sym ((eq_iff source s).0 (ground arith)) ∙ sym f_named.1),
          )
          refl)

    other_id : (str_eq name n && str_eq source s) ≡ false → (g.id == f.id) ≡ false
    other_id other = elim (Bool-cases (g.id == f.id)) [
      | inr differs ↦ differs
      | inl equal ↦
          let row = owned.0 equal in
          absurd (
            ground (
              arith,
              other,
              (eq_iff name n).1 (sym f_named.0 ∙ ap (λ (h : File). h.name) (sym row) ∙ g_named.0),
              (eq_iff source s).1
                  (sym f_named.1 ∙ ap (λ (h : File). h.source) (sym row) ∙ g_named.1),
            ))
    ]

-- Where no file has the name, there is no entry to go.
delete_missing-found :
    (name source n s : String) (ls : List FileChunk) (fs : List File) (o : Option File)
    → find (is_named name source) fs ≡ none
    → find (is_named n s) fs ≡ o
    → entry_in ls o ≡ (if str_eq name n && str_eq source s then none else entry_in ls o)
delete_missing-found name source n s ls fs none e e' = ground arith
delete_missing-found name source n s ls fs (some g) e e' =
    elim (Bool-cases (str_eq name n && str_eq source s)) [
      | inr other ↦ rw other refl
      | inl same ↦ absurd (
          nothing (
            sym e
            ∙ ap (λ x. find (is_named x source) fs) ((eq_iff name n).0 (ground arith))
            ∙ ap (λ x. find (is_named n x) fs) ((eq_iff source s).0 (ground arith))
            ∙ e'))
    ]
  where
    nothing : ◌≡◌ {A = Option File} none (some g) → ⊥
    nothing h = absurd (ground arith)

pub delete_file-entries :
    (now name source : String) (db : Db) (n s : String)
    → IsIndexed db
    → entries_at (delete_file now name source db).1 n s
      ≡ (if str_eq name n && str_eq source s then none else entries_at db n s)
unfolding delete_file
delete_file-entries now name source db n s v =
    elim (Option-cases (find (is_named name source) db.files)) [
      | inl missing ↦
          rw (missing, delete_file)
            (delete_missing-found name source n s db.file_chunks db.files _ missing refl)
      | inr (f, found) ↦
          rw (found, delete_file)
            (delete_by_id-entries now f.id db n s v
              ∙ delete_named-found name source n s db.file_chunks db.files f _ v.distinct found
                  refl)
    ]

pub delete_file-last_id :
    (now name source : String) (db : Db)
    → (delete_file now name source db).1.last_file_id ≡ db.last_file_id
unfolding delete_file delete_file_by_id_tx
delete_file-last_id now name source db =
    elim (Option-cases (find (is_named name source) db.files)) [
      | inl missing ↦ rw (missing, delete_file) refl
      | inr (f, found) ↦ rw (found, delete_file) refl
    ]

pub delete_file-IsIndexed :
    (now name source : String) (db : Db)
    → IsIndexed db
    → IsIndexed (delete_file now name source db).1
unfolding delete_file
delete_file-IsIndexed now name source db w =
    elim (Option-cases (find (is_named name source) db.files)) [
      | inl missing ↦ rw (missing, delete_file) w
      | inr (f, found) ↦ rw (found, delete_file) (delete_by_id-IsIndexed now f.id db w)
    ]

pub delete_files_by_repo-last_id :
    (now repo : String) (db : Db)
    → (delete_files_by_repo now repo db).1.last_file_id ≡ db.last_file_id
unfolding delete_files_by_repo
delete_files_by_repo-last_id now repo db = delete_ids-last_id now (repo_file_ids repo db) db

pub delete_files_by_repo-IsIndexed :
    (now repo : String) (db : Db) → IsIndexed db → IsIndexed (delete_files_by_repo now repo db).1
unfolding delete_files_by_repo
delete_files_by_repo-IsIndexed now repo db w = delete_ids-IsIndexed now (repo_file_ids repo db) db w
