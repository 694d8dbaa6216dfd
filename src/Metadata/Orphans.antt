-- ===== src/Metadata/Orphans.antt =====
-- Which chunks the collector of src/service.rs is offered, and which ones it is not.
use hugrs.Prelude.{
  ℕ, ◌≡◌, ◌≢◌, refl, sym, ap, ◌∙◌, subst, String, true, false, not, some, List, [], ◌∷◌, ◌++◌, map,
  ok, All, All-mono, All-map, All-append, All-sort_by, All-take, All-find, find-test, is_some,
  str_eq, eq_iff, eq_refl, find, select, Bool-cases, Option-cases, inl, inr, arith,
}
use hugrs.Metadata.Tables.{Chunk, FileChunk, Db, refs, is_at, has_chunk, has_file}
use hugrs.Metadata.Chunks.{
  is_orphan, list_orphan_chunks_batch, by_orphaned_at, ensure_chunk, new_chunk,
}
use hugrs.Metadata.Links.{add_ref, drop_ref, is_chunk_linked, ensure_chunk_and_link}
use hugrs.Metadata.Refs.{counts_at, refs_without, refs-append, has_chunk-append, has_chunk-map}
use hugrs.Metadata.Consistency.{IsConsistent, RefsExact}
use hugrs.Metadata.Consistency.Linking.{drop_ref-sha256}

-- Not linked by any file.
abbrev pub IsUnlinked : Db → Chunk → Type 0
IsUnlinked db c = refs c.sha256 db.file_chunks ≡ 0

orphan-IsUnlinked :
    (db : Db) (cs : List Chunk)
    → RefsExact db.file_chunks cs
    → All (IsUnlinked db) (select is_orphan cs)
orphan-IsUnlinked db [] e = tt
orphan-IsUnlinked db (c ∷ cs) e = ground (arith, orphan-IsUnlinked db cs e.1)

-- In a consistent database the collector is offered only chunks that no file links.
pub batch-IsUnlinked :
    (limit : ℕ) (db : Db)
    → IsConsistent db
    → All (IsUnlinked db) (list_orphan_chunks_batch limit db)
unfolding list_orphan_chunks_batch
batch-IsUnlinked limit db v = All-take _ limit _ (
    All-sort_by _ by_orphaned_at (select is_orphan db.chunks)
      (orphan-IsUnlinked db db.chunks v.refs_exact))

-- An unmarked chunk under a key stays unmarked.
abbrev pub UnmarkedAt : String → Chunk → Type 0
UnmarkedAt old c = str_eq c.sha256 old ≡ true → is_some c.orphaned_at ≡ false

drop_ref-UnmarkedAt :
    (old s : String) (c : Chunk) → UnmarkedAt old c → UnmarkedAt old (drop_ref s c)
unfolding drop_ref
drop_ref-UnmarkedAt old s c u h = ground arith

add_ref-UnmarkedAt : (old s : String) (c : Chunk) → UnmarkedAt old c → UnmarkedAt old (add_ref s c)
unfolding add_ref
add_ref-UnmarkedAt old s c u h = ground arith

ensure_chunk-UnmarkedAt :
    (now backend path : String) (size compressed : ℕ) (old s : String) (db : Db)
    → old ≢ s
    → All (UnmarkedAt old) db.chunks
    → All (UnmarkedAt old) (ensure_chunk now s backend path size compressed db).chunks
unfolding ensure_chunk
ensure_chunk-UnmarkedAt now backend path size compressed old s db ne u =
    elim (Bool-cases (has_chunk s db.chunks)) [
      | inl there ↦ rw there u
      | inr missing ↦
          rw missing
            (All-append _ db.chunks _ u ((λ h. absurd (ne (sym ((eq_iff s old).0 h)))), tt))
    ]

ensure_chunk-has_chunk :
    (now s backend path : String) (size compressed : ℕ) (db : Db)
    → has_chunk s (ensure_chunk now s backend path size compressed db).chunks ≡ true
unfolding ensure_chunk new_chunk
ensure_chunk-has_chunk now s backend path size compressed db =
    elim (Bool-cases (has_chunk s db.chunks)) [
      | inl there ↦ rw there there
      | inr missing ↦ rw missing (
          has_chunk-append s db.chunks (new_chunk now s backend path size compressed)
          ∙ ground (arith, eq_refl s))
    ]

-- `ensure_chunk` touches the chunks alone.
module _ (now s backend path : String) (size compressed : ℕ) (db : Db) where
  file_chunks-ensure_chunk :
      (ensure_chunk now s backend path size compressed db).file_chunks ≡ db.file_chunks
  unfolding ensure_chunk
  file_chunks-ensure_chunk = refl

  files-ensure_chunk : (ensure_chunk now s backend path size compressed db).files ≡ db.files
  unfolding ensure_chunk
  files-ensure_chunk = refl

  is_chunk_linked-ensure_chunk :
      (file_id idx : ℕ)
      → is_chunk_linked file_id idx (ensure_chunk now s backend path size compressed db)
        ≡ is_chunk_linked file_id idx db
  unfolding ensure_chunk is_chunk_linked
  is_chunk_linked-ensure_chunk file_id idx = refl

-- The row that a found link is, with its file.
linked_row :
    (file_id idx : ℕ) (old : String) (db : Db)
    → IsConsistent db
    → is_chunk_linked file_id idx db ≡ some old
    → (x : FileChunk) × (find (is_at file_id idx) db.file_chunks ≡ some x)
      × (x.sha256 ≡ old)
      × (has_file file_id db.files ≡ true)
unfolding is_chunk_linked
linked_row file_id idx old db v e = elim (Option-cases (find (is_at file_id idx) db.file_chunks)) [
  | inl missing ↦ absurd (ground arith)
  | inr (x, found) ↦ (
    x,
    found,
    ground arith,
    file_of x (find-test (is_at file_id idx) db.file_chunks x found)
        (All-find _ (is_at file_id idx) db.file_chunks x v.owned found),
  )
]
  where
    file_of :
        (x : FileChunk)
        → is_at file_id idx x ≡ true
        → has_file x.file_id db.files ≡ true
        → has_file file_id db.files ≡ true
    file_of x h o =
        let e : x.file_id ≡ file_id = ground arith in subst (λ n. has_file n db.files ≡ true) e o

-- The database after the last link to a chunk is moved to another chunk.
abbrev pub relinked : String → String → String → ℕ → ℕ → String → FileChunk → Db → Db
relinked now backend path size compressed old l db =
    let d = ensure_chunk now l.sha256 backend path size compressed db in
    record d {
      file_chunks = select (λ x. not (is_at l.file_id l.chunk_index x)) d.file_chunks ++ l ∷ [];
      chunks = map (add_ref l.sha256) (map (drop_ref old) d.chunks);
    }

relink-eq :
    (now backend path : String) (size compressed : ℕ) (old : String) (l : FileChunk) (db : Db)
    → IsConsistent db
    → is_chunk_linked l.file_id l.chunk_index db ≡ some old
    → old ≢ l.sha256
    → ensure_chunk_and_link now backend path size compressed l db
      ≡ ok (relinked now backend path size compressed old l db)
unfolding ensure_chunk_and_link
relink-eq now backend path size compressed old l db v e ne = rw (
  is_chunk_linked-ensure_chunk now l.sha256 backend path size compressed db l.file_id l.chunk_index
      ∙ e,
  moved,
  file,
  chunk,
)
  where
    moved : str_eq old l.sha256 ≡ false
    moved = ground (arith, eq_iff old l.sha256)

    file :
        has_file l.file_id (ensure_chunk now l.sha256 backend path size compressed db).files ≡ true
    file = rw files-ensure_chunk (linked_row l.file_id l.chunk_index old db v e).3

    chunk :
        has_chunk l.sha256
          (map (drop_ref old) (ensure_chunk now l.sha256 backend path size compressed db).chunks)
        ≡ true
    chunk =
        has_chunk-map (drop_ref old) l.sha256 _ (drop_ref-sha256 old)
        ∙ ensure_chunk-has_chunk now l.sha256 backend path size compressed db

All-UnmarkedAt-map :
    (old : String) (f : Chunk → Chunk) (cs : List Chunk)
    → ((c : Chunk) → UnmarkedAt old c → UnmarkedAt old (f c))
    → All (UnmarkedAt old) cs
    → All (UnmarkedAt old) (map f cs)
All-UnmarkedAt-map old f cs h = All-map _ f h cs

not-orphan :
    (old : String) (c : Chunk) → UnmarkedAt old c → str_eq c.sha256 old ≡ true → is_orphan c ≡ false
not-orphan old c u h = ground (arith, u h)

-- In a consistent database where a place of a file links the chunk `old`, by the only link of that
-- chunk, and no row of `old` has the orphan mark: a download that puts another chunk there
-- succeeds, and leaves `old` without a link and no row of it an orphan.
pub relink_strands :
    (now backend path : String) (size compressed : ℕ) (old : String) (l : FileChunk) (db : Db)
    → IsConsistent db
    → is_chunk_linked l.file_id l.chunk_index db ≡ some old
    → old ≢ l.sha256
    → refs old db.file_chunks ≡ 1
    → All (UnmarkedAt old) db.chunks
    → (db' : Db) × (ensure_chunk_and_link now backend path size compressed l db ≡ ok db')
      × (refs old db'.file_chunks ≡ 0)
      × All (λ c. str_eq c.sha256 old ≡ true → is_orphan c ≡ false) db'.chunks
relink_strands now backend path size compressed old l db v e ne one u = (
  relinked now backend path size compressed old l db,
  relink-eq now backend path size compressed old l db v e ne,
  gone,
  All-mono (not-orphan old) _ (
      All-UnmarkedAt-map old (add_ref l.sha256) _ (add_ref-UnmarkedAt old l.sha256) (
        All-UnmarkedAt-map old (drop_ref old) _ (drop_ref-UnmarkedAt old old)
          (ensure_chunk-UnmarkedAt now backend path size compressed old l.sha256 db ne u))),
)
  where
    counted : (x : FileChunk) → x.sha256 ≡ old → counts_at (some x) old ≡ 1
    counted x same = ground (arith, eq_iff x.sha256 old)

    missed : counts_at (some l) old ≡ 0
    missed = ground (arith, eq_iff l.sha256 old)

    gone : refs old (relinked now backend path size compressed old l db).file_chunks ≡ 0
    gone =
        let (x, found, same, file) = linked_row l.file_id l.chunk_index old db v e in
        rw file_chunks-ensure_chunk (
          refs-append old _ l
          ∙ omega (
            arith,
            refs_without old l.file_id l.chunk_index db.file_chunks v.keys,
            ap (λ o. counts_at o old) found,
            counted x same,
            missed,
          ))
