-- ===== src/Service/Removal/Exactness.antt =====
-- A deletion across sources takes every file that it is asked for, and no other.
use hugrs.Prelude.{
  ◌≡◌, refl, sym, ap, ◌∙◌, String, Bool, true, false, not, ◌&&◌, ◌||◌, Option, none, some, List, [],
  ◌∷◌, ◌==◌, ==_iff, any_of, select, find, insert_by, sort_by, All, All-mono, All-select, All-both,
  All-sort_by, Bool-cases, Option-cases, inl, inr, arith, eq_refl, find-test, str_eq_comm, subst,
  All-of, All-find,
}
use hugrs.Metadata.Tables.{File, Db, empty, is_named}
use hugrs.Metadata.Files.{list_files, by_repo_name}
use hugrs.Metadata.Deletion.{delete_file, delete_file_by_id_tx}
use hugrs.Metadata.Consistency.History.{Call, calls}
use hugrs.Metadata.Catalog.Indexed.{Distinct, IsIndexed}
use hugrs.Metadata.Catalog.Finding.{All-not_any}
use hugrs.Metadata.Catalog.Refinement.{calls-IsIndexed}
use hugrs.Service.Removal.{
  DeleteResult, delete_entry, delete_entries, is_of_repo, is_file_of, delete_repo_all_sources,
  delete_file_all_sources,
}

-- The row has the name of the entry exactly if it has its id.
abbrev Agrees : File → File → Type 0
Agrees x g = (is_named x.name x.source g) ≡ (g.id == x.id)

select-same :
    (p q : File → Bool) (fs : List File) → All (λ g. p g ≡ q g) fs → select p fs ≡ select q fs
select-same p q [] h = refl
select-same p q (f ∷ fs) h = rw (h.0, select-same p q fs h.1) refl

select-all : (p : File → Bool) (fs : List File) → All (λ g. p g ≡ true) fs → select p fs ≡ fs
select-all p [] h = refl
select-all p (f ∷ fs) h = rw (h.0, select-all p fs h.1) refl

select-select :
    (p q : File → Bool) (fs : List File) → select p (select q fs) ≡ select (λ g. q g && p g) fs
select-select p q [] = refl
select-select p q (f ∷ fs) = ground (arith, select-select p q fs)

find-none_All : (p : File → Bool) (fs : List File) → find p fs ≡ none → All (λ g. p g ≡ false) fs
find-none_All p [] h = tt
find-none_All p (f ∷ fs) h = elim (Bool-cases (p f)) [
  | inl here ↦ absurd (ground arith)
  | inr there ↦ (there, find-none_All p fs (ground arith))
]

-- Deleting an entry by name takes the rows with its id.
delete_file-files :
    (now : String) (x : File) (db : Db)
    → All (Agrees x) db.files
    → (delete_file now x.name x.source db).1.files ≡ select (λ g. not (g.id == x.id)) db.files
unfolding delete_file delete_file_by_id_tx
delete_file-files now x db a = elim (Option-cases (find (is_named x.name x.source) db.files)) [
  | inl missing ↦
      rw (missing, delete_file)
        (sym (
          select-all _ db.files (
            All-both (λ g n m. ground (arith, n, m)) db.files a
              (find-none_All (is_named x.name x.source) db.files missing))))
  | inr (f, found) ↦
      rw (found, delete_file)
        (ap (λ id. select (λ (g : File). not (g.id == id)) db.files) (same_id f found))
]
  where
    same_id : (f : File) → find (is_named x.name x.source) db.files ≡ some f → f.id ≡ x.id
    same_id f found = (==_iff f.id x.id).0 (
        sym (All-find (Agrees x) (is_named x.name x.source) db.files f a found)
        ∙ find-test (is_named x.name x.source) db.files f found)

-- The rows that a pass over a list of entries takes.
abbrev taken : (File → Bool) → List File → File → Bool
taken wanted xs g = any_of (λ f. wanted f && g.id == f.id) xs

delete_entry-files :
    (wanted : File → Bool) (now : String) (x : File) (r : DeleteResult) (db : Db)
    → All (Agrees x) db.files
    → (delete_entry wanted now x (r, db)).1.files
      ≡ select (λ g. not (wanted x && g.id == x.id)) db.files
unfolding delete_entry
delete_entry-files wanted now x r db a = elim (Bool-cases (wanted x)) [
  | inl taken_now ↦ rw (taken_now, delete_entry) (delete_file-files now x db a)
  | inr passed ↦
      rw (passed, delete_entry) (sym (select-all _ db.files (All-of _ (λ g. refl) db.files)))
]

delete_entries-files :
    (wanted : File → Bool) (now : String) (xs : List File) (r : DeleteResult) (db : Db)
    → All (λ x. All (Agrees x) db.files) xs
    → (delete_entries wanted now xs (r, db)).1.files
      ≡ select (λ g. not (taken wanted xs g)) db.files
unfolding delete_entries
delete_entries-files wanted now [] r db a =
    sym (select-all _ db.files (All-of _ (λ g. refl) db.files))
delete_entries-files wanted now (x ∷ xs) r db (a, as_) =
    delete_entries-files wanted now xs _ after later
    ∙ ap (select (λ g. not (taken wanted xs g))) here
    ∙ select-select _ _ db.files
    ∙ select-same (λ g. not (wanted x && g.id == x.id) && not (taken wanted xs g))
        (λ g. not (taken wanted (x ∷ xs) g)) db.files (All-of _ (λ g. ground arith) db.files)
  where
    after : Db
    after = (delete_entry wanted now x (r, db)).1

    here : after.files ≡ select (λ g. not (wanted x && g.id == x.id)) db.files
    here = delete_entry-files wanted now x r db a

    later : All (λ y. All (Agrees y) after.files) xs
    later =
        All-mono
          (λ y b.
            subst (λ fs. All (Agrees y) fs) (sym here)
              (All-select (Agrees y) (λ g. not (wanted x && g.id == x.id)) db.files b))
          xs as_

-- Rows that are distinct agree with each other.
Distinct-Agrees : (fs : List File) → Distinct fs → All (λ x. All (Agrees x) fs) fs
Distinct-Agrees [] d = tt
Distinct-Agrees (f ∷ fs) (ids, names, d) = (
  (ground (arith, eq_refl f.name, eq_refl f.source), All-mono (λ g o. o.0) fs others),
  All-both (λ x a o. (o.1, a)) fs (Distinct-Agrees fs d) others,
)
  where
    others : All (λ g. Agrees f g × Agrees g f) fs
    others =
        All-both
          (λ g i n. (
            ground (arith, i, n),
            ground (arith, i, n, str_eq_comm g.name f.name, str_eq_comm g.source f.source),
          ))
          fs (All-not_any (λ (g : File). g.id == f.id) fs ids)
          (All-not_any (is_named f.name f.source) fs names)

any_of-insert_by :
    (p : File → Bool) (le : File → File → Bool) (x : File) (xs : List File)
    → any_of p (insert_by le x xs) ≡ p x || any_of p xs
any_of-insert_by p le x [] = refl
any_of-insert_by p le x (y ∷ ys) = ground (arith, any_of-insert_by p le x ys)

any_of-sort_by :
    (p : File → Bool) (le : File → File → Bool) (xs : List File)
    → any_of p (sort_by le xs) ≡ any_of p xs
any_of-sort_by p le [] = refl
any_of-sort_by p le (x ∷ xs) =
    any_of-insert_by p le x (sort_by le xs) ∙ ap (λ b. p x || b) (any_of-sort_by p le xs)

not_taken :
    (wanted : File → Bool) (f : File) (fs : List File)
    → any_of (λ (g : File). g.id == f.id) fs ≡ false
    → taken wanted fs f ≡ false
not_taken wanted f [] h = refl
not_taken wanted f (x ∷ xs) h = ground (arith, not_taken wanted f xs)

-- Among distinct rows, the one with a row's id is that row.
taken-wanted :
    (wanted : File → Bool) (fs : List File)
    → Distinct fs
    → All (λ g. taken wanted fs g ≡ wanted g) fs
taken-wanted wanted [] d = tt
taken-wanted wanted (f ∷ fs) (ids, names, d) = (
  ground (arith, not_taken wanted f fs ids),
  All-both (λ g i t. ground (arith, i, t)) fs (All-not_any (λ (g : File). g.id == f.id) fs ids)
      (taken-wanted wanted fs d),
)

-- For distinct rows: what a deletion of wanted entries leaves are the rows that are not wanted.
pub delete_listed-files :
    (wanted : File → Bool) (now : String) (r : DeleteResult) (db : Db)
    → IsIndexed db
    → (delete_entries wanted now (list_files db) (r, db)).1.files
      ≡ select (λ f. not (wanted f)) db.files
unfolding list_files
delete_listed-files wanted now r db w =
    delete_entries-files wanted now (list_files db) r db
      (All-sort_by _ by_repo_name db.files (Distinct-Agrees db.files w.distinct))
    ∙ select-same _ _ db.files (
        All-mono (λ g t. ap not (any_of-sort_by _ by_repo_name db.files ∙ t)) db.files
          (taken-wanted wanted db.files w.distinct))

-- On every database that calls on the empty one lead to: a deletion of a repo leaves exactly the
-- files that are not of that repo, or, where a source is given, not of that source.
pub delete_repo_all_sources-files :
    (cs : List (String × Call)) (now repo : String) (source : Option String)
    → (delete_repo_all_sources now repo source (calls cs empty)).1.files
      ≡ select (λ f. not (is_of_repo repo source f)) (calls cs empty).files
unfolding delete_repo_all_sources
delete_repo_all_sources-files cs now repo source =
    delete_listed-files (is_of_repo repo source) now _ (calls cs empty) (calls-IsIndexed cs)

-- On every database that calls on the empty one lead to: a deletion of a file leaves exactly the
-- files that are not of that repo and name, or, where a source is given, not of that source.
pub delete_file_all_sources-files :
    (cs : List (String × Call)) (now repo file : String) (source : Option String)
    → (delete_file_all_sources now repo file source (calls cs empty)).1.files
      ≡ select (λ f. not (is_file_of repo file source f)) (calls cs empty).files
unfolding delete_file_all_sources
delete_file_all_sources-files cs now repo file source =
    delete_listed-files (is_file_of repo file source) now _ (calls cs empty) (calls-IsIndexed cs)
