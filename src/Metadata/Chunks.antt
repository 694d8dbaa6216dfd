-- ===== src/Metadata/Chunks.antt =====
-- The statements of src/metadata.rs on the table `chunks`.
use hugrs.Prelude.{
  ℕ, ◌+◌, String, Bool, not, ◌&&◌, Option, none, some, List, [], ◌∷◌, ◌++◌, map, pos, Result, ok,
  err, str_eq, str_leb, is_some, is_zero, ltb, if◌then◌else◌, find, any_of, select, sort_by, take,
  length,
}
use hugrs.Metadata.Tables.{Chunk, FileChunk, Db, SqlError, foreign_key_failed, has_chunk}

unfoldable pub new_chunk : String → String → String → String → ℕ → ℕ → Chunk
new_chunk now sha256 backend path size compressed_size = record {
  sha256 = sha256;
  backend = backend;
  path = path;
  size = size;
  compressed_size = some compressed_size;
  ref_count = pos 0;
  orphaned_at = some now;
}

-- INSERT OR IGNORE INTO chunks
unfoldable pub ensure_chunk : String → String → String → String → ℕ → ℕ → Db → Db
unfolding new_chunk
ensure_chunk now sha256 backend path size compressed_size db = record db {
  chunks =
      if has_chunk sha256 db.chunks
      then db.chunks
      else db.chunks ++ new_chunk now sha256 backend path size compressed_size ∷ [];
}

unfoldable pub get_chunk : String → Db → Option Chunk
get_chunk sha256 db = find (λ c. str_eq c.sha256 sha256) db.chunks

-- UPDATE chunks SET orphaned_at = ?2 WHERE sha256 = ?1
set_orphaned_at : Option String → String → Db → Db
set_orphaned_at t sha256 db = record db {
  chunks = map (λ c. if str_eq c.sha256 sha256 then record c { orphaned_at = t } else c) db.chunks;
}

unfoldable pub mark_chunk_orphaned : String → String → Db → Db
unfolding set_orphaned_at
mark_chunk_orphaned now = set_orphaned_at (some now)

unfoldable pub clear_chunk_orphaned : String → Db → Db
unfolding set_orphaned_at
clear_chunk_orphaned = set_orphaned_at none

-- WHERE ref_count = 0 AND orphaned_at IS NOT NULL
abbrev pub is_orphan : Chunk → Bool
is_orphan c = is_zero c.ref_count && is_some c.orphaned_at

abbrev text_of : Option String → String
text_of none = ""
text_of (some s) = s

-- ORDER BY orphaned_at ASC
abbrev pub by_orphaned_at : Chunk → Chunk → Bool
by_orphaned_at c d = str_leb (text_of c.orphaned_at) (text_of d.orphaned_at)

unfoldable pub get_orphan_chunks : Db → List Chunk
get_orphan_chunks db = sort_by by_orphaned_at (select is_orphan db.chunks)

unfoldable pub list_orphan_chunks_batch : ℕ → Db → List Chunk
list_orphan_chunks_batch limit db = take limit (sort_by by_orphaned_at (select is_orphan db.chunks))

-- COALESCE(compressed_size, size)
abbrev pub stored_size : Chunk → ℕ
stored_size c = elim c.compressed_size [ none ↦ c.size | some n ↦ n ]

abbrev pub total_stored : List Chunk → ℕ
total_stored [] = 0
total_stored (c ∷ cs) = stored_size c + total_stored cs

unfoldable pub list_orphan_chunks_stats : Db → ℕ × ℕ
list_orphan_chunks_stats db =
    (length (select is_orphan db.chunks), total_stored (select is_orphan db.chunks))

-- Does a row of file_chunks reference a chunk that passes the test?
abbrev pub is_referenced : (Chunk → Bool) → Db → Bool
is_referenced p db =
    any_of (λ c. p c && any_of (λ (l : FileChunk). str_eq l.sha256 c.sha256) db.file_chunks)
      db.chunks

-- DELETE FROM chunks WHERE ...: the foreign key of file_chunks refuses a chunk in use.
unfoldable pub delete_where : (Chunk → Bool) → Db → Result SqlError Db
delete_where p db =
    if is_referenced p db
    then err foreign_key_failed
    else ok (record db { chunks = select (λ c. not (p c)) db.chunks })

-- WHERE sha256 = ?1 AND ref_count = 0
abbrev pub is_deletable : String → Chunk → Bool
is_deletable sha256 c = str_eq c.sha256 sha256 && is_zero c.ref_count

unfoldable pub delete_chunk_result : ℕ → Result SqlError Db → Result SqlError (Bool × Db)
delete_chunk_result deleted (ok db) = ok (ltb 0 deleted, db)
delete_chunk_result deleted (err e) = err e

unfoldable pub delete_chunk : String → Db → Result SqlError (Bool × Db)
unfolding delete_where delete_chunk_result
delete_chunk sha256 db =
    delete_chunk_result (length (select (is_deletable sha256) db.chunks))
      (delete_where (is_deletable sha256) db)

-- WHERE ref_count = 0 AND sha256 IN (...)
abbrev pub is_in : List String → Chunk → Bool
is_in sha256s c = is_zero c.ref_count && any_of (λ s. str_eq s c.sha256) sha256s

abbrev pub deletable : List String → Db → List String
deletable sha256s db = map (λ (c : Chunk). c.sha256) (select (is_in sha256s) db.chunks)

unfoldable pub delete_chunks_result :
    List String → Result SqlError Db → Result SqlError (List String × Db)
delete_chunks_result deleted (ok db) = ok (deleted, db)
delete_chunks_result deleted (err e) = err e

unfoldable pub delete_listed : List String → Db → Result SqlError (List String × Db)
unfolding delete_where delete_chunks_result
delete_listed [] db = ok ([], db)
delete_listed (d ∷ ds) db = delete_chunks_result (d ∷ ds) (delete_where (is_in (d ∷ ds)) db)

-- The two early returns, for no key and for no deletable chunk, leave the database as it is.
unfoldable pub delete_chunks_batch : List String → Db → Result SqlError (List String × Db)
unfolding delete_listed
delete_chunks_batch [] db = ok ([], db)
delete_chunks_batch (s ∷ ss) db = delete_listed (deletable (s ∷ ss) db) db
