-- ===== src/Metadata/Catalog/Removing.antt =====
-- The deletions of files, seen through the catalogue.
use hugrs.Prelude.{
  ℕ, ◌≡◌, refl, ap, ◌∙◌, fun_ext, String, not, Option, none, some, List, [], ◌∷◌, ◌==◌,
  if◌then◌else◌, any_of, find, Bool-cases, inl, inr, arith, All-select,
}
use hugrs.Metadata.Tables.{File, FileChunk, Db, is_at, is_named}
use hugrs.Metadata.Deletion.{delete_file_by_id_tx, delete_ids}
use hugrs.Metadata.Links.{is_chunk_linked}
use hugrs.Metadata.Files.{get_file_by_name}
use hugrs.Metadata.Catalog.{Entry, entry_of, view}
use hugrs.Metadata.Catalog.Indexed.{IsIndexed, Distinct-select}
use hugrs.Metadata.Catalog.Finding.{find-select_none, find-select-some, find-select_gone}
use hugrs.Metadata.Catalog.Parts.{parts_of, sha_of, parts-select}

abbrev pub with_parts : File → (ℕ → Option String) → Entry
with_parts f p = record { id = f.id; repo = f.repo; total_size = f.total_size; parts = p }

-- The entry of a row, over a table of links.
abbrev pub entry_in : List FileChunk → Option File → Option Entry
entry_in ls none = none
entry_in ls (some f) = some (with_parts f (parts_of ls f.id))

entry_of-in : (db : Db) (o : Option File) → entry_of db o ≡ entry_in db.file_chunks o
unfolding is_chunk_linked
entry_of-in db none = refl
entry_of-in db (some f) =
    ap (λ p. some (with_parts f p)) (fun_ext λ i. sha_of_found (find (is_at f.id i) db.file_chunks))
  where
    sha_of_found :
        (o : Option FileChunk) → elim o [ none ↦ none | some l ↦ some l.sha256 ] ≡ sha_of o
    sha_of_found none = refl
    sha_of_found (some l) = refl

pub view-entries :
    (db : Db) (name source : String)
    → (view db).entries name source ≡ entry_in db.file_chunks (find (is_named name source) db.files)
unfolding view get_file_by_name
view-entries db name source = entry_of-in db (find (is_named name source) db.files)

-- The entries with one of the ids go.
abbrev pub drop_ids : List ℕ → Option Entry → Option Entry
drop_ids ids none = none
drop_ids ids (some e) = if any_of (λ id. e.id == id) ids then none else some e

delete_by_id-found :
    (now : String) (id : ℕ) (db : Db) (name source : String) (o : Option File)
    → IsIndexed db
    → find (is_named name source) db.files ≡ o
    → entry_in
        (delete_file_by_id_tx now id db).file_chunks
        (find (is_named name source) (delete_file_by_id_tx now id db).files)
      ≡ drop_ids (id ∷ []) (entry_in db.file_chunks o)
unfolding delete_file_by_id_tx
delete_by_id-found now id db name source none v e =
    ap (entry_in _) (find-select_none (is_named name source) _ db.files e)
delete_by_id-found now id db name source (some f) v e = elim (Bool-cases (f.id == id)) [
  | inl this ↦
      ap (entry_in _) (
        find-select_gone name source (λ g. not (g.id == id)) db.files f v.distinct e (ground arith))
      ∙ rw this refl
  | inr other ↦
      ap (entry_in _) (
        find-select-some (is_named name source) (λ g. not (g.id == id)) db.files f e (ground arith))
      ∙ rw other (
          ap (λ p. some (with_parts f p))
            (fun_ext λ i. parts-select id f.id i db.file_chunks other))
]

pub delete_by_id-IsIndexed :
    (now : String) (id : ℕ) (db : Db) → IsIndexed db → IsIndexed (delete_file_by_id_tx now id db)
unfolding delete_file_by_id_tx
delete_by_id-IsIndexed now id db v = record {
  distinct = Distinct-select (λ f. not (f.id == id)) db.files v.distinct;
  bounded = All-select _ (λ f. not (f.id == id)) db.files v.bounded;
}

-- The entries of a database.
abbrev pub entries_at : Db → String → String → Option Entry
entries_at db name source = entry_in db.file_chunks (find (is_named name source) db.files)

pub delete_by_id-entries :
    (now : String) (id : ℕ) (db : Db) (name source : String)
    → IsIndexed db
    → entries_at (delete_file_by_id_tx now id db) name source
      ≡ drop_ids (id ∷ []) (entries_at db name source)
delete_by_id-entries now id db name source v =
    delete_by_id-found now id db name source (find (is_named name source) db.files) v refl

drop_ids-cons :
    (id : ℕ) (ids : List ℕ) (o : Option Entry)
    → drop_ids ids (drop_ids (id ∷ []) o) ≡ drop_ids (id ∷ ids) o
drop_ids-cons id ids none = refl
drop_ids-cons id ids (some e) = elim (Bool-cases (e.id == id)) [
  | inl this ↦ rw this refl
  | inr other ↦ rw other refl
]

pub delete_ids-entries :
    (now : String) (ids : List ℕ) (db : Db) (name source : String)
    → IsIndexed db
    → entries_at (delete_ids now ids db) name source ≡ drop_ids ids (entries_at db name source)
unfolding delete_ids
delete_ids-entries now [] db name source v = drop_none (entries_at db name source)
  where
    drop_none : (o : Option Entry) → o ≡ drop_ids [] o
    drop_none none = refl
    drop_none (some e) = refl
delete_ids-entries now (id ∷ ids) db name source v =
    delete_ids-entries now ids (delete_file_by_id_tx now id db) name source
      (delete_by_id-IsIndexed now id db v)
    ∙ ap (drop_ids ids) (delete_by_id-entries now id db name source v)
    ∙ drop_ids-cons id ids (entries_at db name source)

pub delete_ids-IsIndexed :
    (now : String) (ids : List ℕ) (db : Db) → IsIndexed db → IsIndexed (delete_ids now ids db)
unfolding delete_ids
delete_ids-IsIndexed now [] db v = v
delete_ids-IsIndexed now (id ∷ ids) db v =
    delete_ids-IsIndexed now ids (delete_file_by_id_tx now id db)
      (delete_by_id-IsIndexed now id db v)

pub delete_ids-last_id :
    (now : String) (ids : List ℕ) (db : Db) → (delete_ids now ids db).last_file_id ≡ db.last_file_id
unfolding delete_ids delete_file_by_id_tx
delete_ids-last_id now [] db = refl
delete_ids-last_id now (id ∷ ids) db = delete_ids-last_id now ids (delete_file_by_id_tx now id db)
