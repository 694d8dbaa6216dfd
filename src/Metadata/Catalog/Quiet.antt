-- ===== src/Metadata/Catalog/Quiet.antt =====
-- The statements that leave files alone, or files and links.
use hugrs.Prelude.{
  ℕ, ◌≡◌, refl, sym, subst₂, String, Bool, true, false, Option, none, some, List, [], ◌∷◌, any_of,
  find, Bool-cases, inl, inr, All, str_eq, subst, ◌≤◌,
}
use hugrs.Metadata.Tables.{File, Chunk, FileChunk, Db, is_at, is_named}
use hugrs.Metadata.Chunks.{
  ensure_chunk, mark_chunk_orphaned, clear_chunk_orphaned, delete_chunk, delete_chunks_batch,
  delete_where, delete_listed, deletable, is_deletable, is_in, is_referenced, delete_chunk_result,
}
use hugrs.Metadata.Links.{
  link_file_chunk, unlink_old, replace_link, relink, relink_current, keys_exist,
  ensure_chunk_and_link,
}
use hugrs.Metadata.Reconcile.{reconcile_chunk_refs}
use hugrs.Metadata.Consistency.History.{settle}
use hugrs.Metadata.Catalog.Indexed.{IsIndexed, Distinct}
use hugrs.Metadata.Catalog.Removing.{entries_at, entry_in}

-- The table of files and its counter are the same.
abbrev pub SameFiles : Db → Db → Type 0
SameFiles db db' = (db'.files ≡ db.files) × (db'.last_file_id ≡ db.last_file_id)

pub SameFiles-IsIndexed : (db db' : Db) → SameFiles db db' → IsIndexed db → IsIndexed db'
SameFiles-IsIndexed db db' (files, last) w = record {
  distinct = subst (λ fs. Distinct fs) (sym files) w.distinct;
  bounded = subst₂ (λ fs k. All (λ (f : File). f.id ≤ k) fs) (sym files) (sym last) w.bounded;
}

-- The links are the same too.
abbrev pub Quiet : Db → Db → Type 0
Quiet db db' = SameFiles db db' × (db'.file_chunks ≡ db.file_chunks)

pub Quiet-entries :
    (db db' : Db) (n s : String) → Quiet db db' → entries_at db' n s ≡ entries_at db n s
Quiet-entries db db' n s ((files, last), links) =
    subst₂ (λ fs ls. entry_in ls (find (is_named n s) fs) ≡ entries_at db n s) (sym files)
      (sym links) refl

pub link_file_chunk-SameFiles :
    (l : FileChunk) (db : Db) → SameFiles db (settle (λ r. r) db (link_file_chunk l db))
unfolding link_file_chunk
link_file_chunk-SameFiles l db =
    elim (Bool-cases (any_of (is_at l.file_id l.chunk_index) db.file_chunks)) [
      | inl there ↦ rw there (refl, refl)
      | inr free ↦ elim (Bool-cases (keys_exist l db)) [
        | inl keys ↦ rw (free, keys) (refl, refl)
        | inr missing ↦ rw (free, missing) (refl, refl)
      ]
    ]

replace_link-SameFiles :
    (l : FileChunk) (db : Db) (cs : List Chunk)
    → SameFiles db (settle (λ r. r) db (replace_link l (record db { chunks = cs })))
unfolding replace_link
replace_link-SameFiles l db cs = elim (Bool-cases (keys_exist l (record db { chunks = cs }))) [
  | inl keys ↦ rw keys (refl, refl)
  | inr missing ↦ rw missing (refl, refl)
]

relink-SameFiles :
    (l : FileChunk) (db : Db) (cs : List Chunk) (old : Option String)
    → SameFiles db (settle (λ r. r) db (relink old l (record db { chunks = cs })))
unfolding relink unlink_old
relink-SameFiles l db cs none = replace_link-SameFiles l db cs
relink-SameFiles l db cs (some old) = elim (Bool-cases (str_eq old l.sha256)) [
  | inl same ↦ rw same (refl, refl)
  | inr other ↦ rw other (replace_link-SameFiles l db _)
]

pub ensure_chunk_and_link-SameFiles :
    (now backend path : String) (size compressed : ℕ) (l : FileChunk) (db : Db)
    → SameFiles db
        (settle (λ r. r) db (ensure_chunk_and_link now backend path size compressed l db))
unfolding ensure_chunk_and_link relink_current ensure_chunk
ensure_chunk_and_link-SameFiles now backend path size compressed l db =
    relink-SameFiles l db (ensure_chunk now l.sha256 backend path size compressed db).chunks _

pub ensure_chunk-Quiet :
    (now sha256 backend path : String) (size compressed : ℕ) (db : Db)
    → Quiet db (ensure_chunk now sha256 backend path size compressed db)
unfolding ensure_chunk
ensure_chunk-Quiet now sha256 backend path size compressed db = ((refl, refl), refl)

pub mark_chunk_orphaned-Quiet :
    (now sha256 : String) (db : Db) → Quiet db (mark_chunk_orphaned now sha256 db)
unfolding mark_chunk_orphaned
mark_chunk_orphaned-Quiet now sha256 db = ((refl, refl), refl)

pub clear_chunk_orphaned-Quiet :
    (sha256 : String) (db : Db) → Quiet db (clear_chunk_orphaned sha256 db)
unfolding clear_chunk_orphaned
clear_chunk_orphaned-Quiet sha256 db = ((refl, refl), refl)

pub delete_chunk-Quiet :
    (sha256 : String) (db : Db) → Quiet db (settle (λ r. r.1) db (delete_chunk sha256 db))
unfolding delete_chunk delete_where delete_chunk_result
delete_chunk-Quiet sha256 db = elim (Bool-cases (is_referenced (is_deletable sha256) db)) [
  | inl used ↦ rw used ((refl, refl), refl)
  | inr free ↦ rw free ((refl, refl), refl)
]

pub delete_chunks_batch-Quiet :
    (ss : List String) (db : Db) → Quiet db (settle (λ r. r.1) db (delete_chunks_batch ss db))
unfolding delete_chunks_batch
delete_chunks_batch-Quiet [] db = ((refl, refl), refl)
delete_chunks_batch-Quiet (s ∷ ss) db = listed (deletable (s ∷ ss) db)
  where
    listed : (ds : List String) → Quiet db (settle (λ r. r.1) db (delete_listed ds db))
    listed [] = ((refl, refl), refl)
    listed (d ∷ ds) = elim (Bool-cases (is_referenced (is_in (d ∷ ds)) db)) [
      | inl used ↦ rw used ((refl, refl), refl)
      | inr free ↦ rw free ((refl, refl), refl)
    ]

pub reconcile_chunk_refs-Quiet :
    (now : String) (dry : Bool) (db : Db) → Quiet db (reconcile_chunk_refs now dry db).1
unfolding reconcile_chunk_refs
reconcile_chunk_refs-Quiet now true db = ((refl, refl), refl)
reconcile_chunk_refs-Quiet now false db = ((refl, refl), refl)
