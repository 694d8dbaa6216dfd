-- ===== src/Service/Refresh/Effect.antt =====
-- What `reconcile_fetched_metadata` leaves in the database.
use hugrs.Prelude.{
  suc, ◌≡◌, refl, ap, ◌∙◌, String, Bool, true, false, not, Option, none, some, List, [], ◌∷◌, ◌++◌,
  map, Result, ok, err, ◌==◌, str_eq, eq_refl, if◌then◌else◌, find, find-test, any_of, select,
  Bool-cases, Option-cases, ◌⊎◌, inl, inr, arith,
}
use hugrs.Metadata.Tables.{File, Db, SqlError, is_named}
use hugrs.Metadata.Files.{
  Headers, new_file, add_file, get_file_by_name, set_file_headers, with_headers, touch_repo,
}
use hugrs.Metadata.Deletion.{delete_file, delete_file_by_id_tx}
use hugrs.Metadata.Consistency.{
  IsConsistent, OnOk, add_file-IsConsistent, set_file_headers-IsConsistent, touch_repo-IsConsistent,
}
use hugrs.Metadata.Consistency.Deleting.{delete_file-IsConsistent}
use hugrs.Service.Refresh.{
  FetchedMetadata, should_delete, headers_of, drop_stale, add_if, add_missing, finish_row,
  reconcile_fetched_metadata, etags_equivalent,
}

-- The row of a file is there, with the headers of the metadata.
abbrev pub HasHeaders : String → String → FetchedMetadata → Db → Type 0
HasHeaders name source m db =
    (f : File) × (get_file_by_name name source db ≡ some f)
    × (f.etag ≡ m.etag)
    × (f.x_repo_commit ≡ m.x_repo_commit)
    × (f.x_linked_size ≡ m.x_linked_size)
    × (f.x_linked_etag ≡ m.x_linked_etag)
    × (f.content_type ≡ m.content_type)

any_of-find : (p : File → Bool) (fs : List File) → find p fs ≡ none → any_of p fs ≡ false
any_of-find p [] e = refl
any_of-find p (f ∷ fs) e = ground (arith, any_of-find p fs)

find-append :
    (p : File → Bool) (fs : List File) (f : File)
    → find p fs ≡ none
    → p f ≡ true
    → find p (fs ++ f ∷ []) ≡ some f
find-append p [] f e t = rw t refl
find-append p (g ∷ fs) f e t = ground (arith, find-append p fs f)

find-map :
    (p : File → Bool) (g : File → File) (fs : List File) (f : File)
    → ((x : File) → p (g x) ≡ p x)
    → find p fs ≡ some f
    → find p (map g fs) ≡ some (g f)
find-map p g [] f h e = absurd (ground arith)
find-map p g (x ∷ fs) f h e = elim (Bool-cases (p x)) [
  | inl t ↦ let same : x ≡ f = ground arith in rw (h x, t) (ap (λ y. some (g y)) same)
  | inr n ↦ rw (h x, n) (find-map p g fs f h (ground arith))
]

-- A row is there after the second part, which is never refused and leaves chunks and links.
abbrev HasRow : String → String → Db → Result SqlError Db → Type 0
HasRow name source before r =
    (db : Db) × (f : File) × (r ≡ ok db)
    × (get_file_by_name name source db ≡ some f)
    × (db.file_chunks ≡ before.file_chunks)
    × (db.chunks ≡ before.chunks)

add_missing-HasRow :
    (now name repo source : String) (m : FetchedMetadata) (db : Db)
    → HasRow name source db (add_missing now name repo source m db)
unfolding add_missing add_file get_file_by_name new_file
add_missing-HasRow now name repo source m db =
    elim (Option-cases (find (is_named name source) db.files)) [
      | inr (f, e) ↦ (db, f, rw e refl, e, refl, refl)
      | inl e ↦ (
        record db {
          files = db.files ++ new_file (suc db.last_file_id) now name repo m.size source ∷ [];
          last_file_id = suc db.last_file_id;
        },
        new_file (suc db.last_file_id) now name repo m.size source,
        rw (e, any_of-find (is_named name source) db.files e) refl,
        find-append (is_named name source) db.files _ e
            (ground (arith, eq_refl name, eq_refl source)),
        refl,
        refl,
      )
    ]

set_headers-row :
    (name source : String) (h : Headers) (f : File) (db : Db)
    → get_file_by_name name source db ≡ some f
    → get_file_by_name name source (set_file_headers name source h db) ≡ some (with_headers h f)
unfolding get_file_by_name set_file_headers with_headers
set_headers-row name source h f db e =
    find-map (is_named name source) _ db.files f (λ x. ground arith) e
    ∙ rw (find-test (is_named name source) db.files f e) refl

touch-row :
    (now repo name source : String) (f : File) (db : Db)
    → get_file_by_name name source db ≡ some f
    → get_file_by_name name source (touch_repo now repo db)
      ≡ some (if str_eq f.repo repo then record f { last_accessed = now } else f)
unfolding get_file_by_name touch_repo
touch-row now repo name source f db e =
    find-map (is_named name source) _ db.files f (λ x. ground arith) e

-- The call is never refused: the row of the file is there afterwards with the headers of the
-- metadata, and the chunks and links are those that the deletion of a stale row leaves.
pub reconcile_fetched_metadata_succeeds :
    (now name repo source : String) (m : FetchedMetadata) (db : Db)
    → (after : Db) × (reconcile_fetched_metadata now name repo source m db ≡ ok after)
      × HasHeaders name source m after
      × (after.file_chunks ≡ (drop_stale now name source m db).file_chunks)
      × (after.chunks ≡ (drop_stale now name source m db).chunks)
unfolding reconcile_fetched_metadata set_file_headers touch_repo with_headers
reconcile_fetched_metadata_succeeds now name repo source m db =
    let (mid, f, e, row, links, chunks) =
      add_missing-HasRow now name repo source m (drop_stale now name source m db) in
    (
      touch_repo now repo (set_file_headers name source (headers_of m) mid),
      ap (finish_row now name repo source m) e,
      (
        (if str_eq f.repo repo
            then record (with_headers (headers_of m) f) { last_accessed = now }
            else with_headers (headers_of m) f),
        touch-row now repo name source (with_headers (headers_of m) f)
            (set_file_headers name source (headers_of m) mid)
            (set_headers-row name source (headers_of m) f mid row),
        ground arith,
        ground arith,
        ground arith,
        ground arith,
        ground arith,
      ),
      links,
      chunks,
    )

-- Where the row of the file or the fetched metadata says no etag, or the etags are not equivalent,
-- the call succeeds and drops the links of that row, and no other link.
pub reconcile_fetched_metadata_drops :
    (now name repo source : String) (m : FetchedMetadata) (db : Db) (f : File)
    → get_file_by_name name source db ≡ some f
    → (f.etag ≡ none) ⊎ (m.etag ≡ none) ⊎ (etags_equivalent f.etag m.etag ≡ false)
    → (after : Db) × (reconcile_fetched_metadata now name repo source m db ≡ ok after)
      × (after.file_chunks ≡ select (λ l. not (l.file_id == f.id)) db.file_chunks)
unfolding should_delete delete_file drop_stale get_file_by_name delete_file_by_id_tx
reconcile_fetched_metadata_drops now name repo source m db f found why =
    let (after, e, _, links, chunks) =
      reconcile_fetched_metadata_succeeds now name repo source m db in
    (after, e, links ∙ dropped)
  where
    stale : should_delete (some f) m.etag ≡ true
    stale = ground arith

    dropped :
        (drop_stale now name source m db).file_chunks
        ≡ select (λ l. not (l.file_id == f.id)) db.file_chunks
    dropped = rw (found, stale) refl

-- Bringing the row of a file into line with fetched metadata keeps a consistent database
-- consistent.
pub reconcile_fetched_metadata-IsConsistent :
    (now name repo source : String) (m : FetchedMetadata) (db : Db)
    → IsConsistent db
    → OnOk IsConsistent (reconcile_fetched_metadata now name repo source m db)
unfolding reconcile_fetched_metadata drop_stale add_missing
reconcile_fetched_metadata-IsConsistent now name repo source m db v =
    finished _ (added _ _ (dropped (should_delete (get_file_by_name name source db) m.etag)))
  where
    dropped : (t : Bool) → IsConsistent (if t then (delete_file now name source db).1 else db)
    dropped true = delete_file-IsConsistent now name source db v
    dropped false = v

    added :
        (o : Option File) (d : Db)
        → IsConsistent d
        → OnOk IsConsistent (add_if o (add_file now name repo m.size source d) d)
    added (some f) d w = w
    added none d w =
        new_row (add_file now name repo m.size source d)
          (add_file-IsConsistent now name repo m.size source d w)
      where
        new_row :
            (r : Result SqlError (File × Db))
            → OnOk (λ x. IsConsistent x.1) r
            → OnOk IsConsistent (add_if none r d)
        new_row (ok (f, d')) u = u
        new_row (err e) u = tt

    finished :
        (r : Result SqlError Db)
        → OnOk IsConsistent r
        → OnOk IsConsistent (finish_row now name repo source m r)
    finished (ok d) w =
        touch_repo-IsConsistent now repo _
          (set_file_headers-IsConsistent name source (headers_of m) d w)
    finished (err e) w = tt
