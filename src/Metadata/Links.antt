-- ===== src/Metadata/Links.antt =====
-- The statements of src/metadata.rs on the table `file_chunks`, and the reference counts that they
-- move along.
use hugrs.Prelude.{
  ℕ, ◌+◌, String, Bool, true, not, ◌&&◌, Option, none, some, List, [], ◌∷◌, ◌++◌, map, pos, ◌+ℤ◌,
  ◌-ℤ◌, max_zero, Result, ok, err, str_eq, leb, ◌==◌, if◌then◌else◌, find, any_of, select, sort_by,
}
use hugrs.Metadata.Tables.{
  Chunk, FileChunk, Db, SqlError, foreign_key_failed, is_at, has_chunk, has_file,
}
use hugrs.Metadata.Chunks.{ensure_chunk}

-- UPDATE chunks SET ref_count = ref_count + 1, orphaned_at = NULL WHERE sha256 = ?1
unfoldable pub add_ref : String → Chunk → Chunk
add_ref sha256 c =
    if str_eq c.sha256 sha256
    then record c { ref_count = c.ref_count +ℤ pos 1; orphaned_at = none }
    else c

-- UPDATE chunks SET ref_count = MAX(0, ref_count - 1) WHERE sha256 = ?1
unfoldable pub drop_ref : String → Chunk → Chunk
drop_ref sha256 c =
    if str_eq c.sha256 sha256 then record c { ref_count = max_zero (c.ref_count -ℤ pos 1) } else c

-- The foreign keys of an inserted row: its file and its chunk exist.
abbrev pub keys_exist : FileChunk → Db → Bool
keys_exist l db = has_file l.file_id db.files && has_chunk l.sha256 db.chunks

-- INSERT OR IGNORE: a row at the same key is left, and a foreign key is still checked otherwise.
unfoldable pub link_file_chunk : FileChunk → Db → Result SqlError Db
unfolding add_ref
link_file_chunk l db =
    if any_of (is_at l.file_id l.chunk_index) db.file_chunks
    then ok db
    else if keys_exist l db
    then ok (record db {
      file_chunks = db.file_chunks ++ l ∷ [];
      chunks = map (add_ref l.sha256) db.chunks;
    })
    else err foreign_key_failed

unfoldable pub is_chunk_linked : ℕ → ℕ → Db → Option String
is_chunk_linked file_id chunk_index db = elim (find (is_at file_id chunk_index) db.file_chunks) [
  | none ↦ none
  | some l ↦ some l.sha256
]

-- The statement on the chunk that the file had at this index before.
unfoldable pub unlink_old : Option String → String → Db → Db
unfolding drop_ref
unlink_old none sha256 db = db
unlink_old (some old) sha256 db =
    if str_eq old sha256 then db else record db { chunks = map (drop_ref old) db.chunks }

-- old_sha.is_none() || old_sha differs
abbrev pub needs_link : Option String → String → Bool
needs_link none sha256 = true
needs_link (some old) sha256 = not (str_eq old sha256)

-- INSERT OR REPLACE, then the count of the new chunk.
unfoldable pub replace_link : FileChunk → Db → Result SqlError Db
unfolding add_ref
replace_link l db =
    if keys_exist l db
    then ok (record db {
      file_chunks = select (λ x. not (is_at l.file_id l.chunk_index x)) db.file_chunks ++ l ∷ [];
      chunks = map (add_ref l.sha256) db.chunks;
    })
    else err foreign_key_failed

unfoldable pub relink : Option String → FileChunk → Db → Result SqlError Db
unfolding unlink_old replace_link
relink old l db =
    if needs_link old l.sha256
    then replace_link l (unlink_old old l.sha256 db)
    else ok (unlink_old old l.sha256 db)

unfoldable pub relink_current : FileChunk → Db → Result SqlError Db
unfolding relink is_chunk_linked
relink_current l db = relink (is_chunk_linked l.file_id l.chunk_index db) l db

-- One transaction: an error rolls back what stands above it.
unfoldable pub ensure_chunk_and_link :
    String → String → String → ℕ → ℕ → FileChunk → Db → Result SqlError Db
unfolding relink_current
ensure_chunk_and_link now backend path size compressed_size l db =
    relink_current l (ensure_chunk now l.sha256 backend path size compressed_size db)

-- ORDER BY chunk_index
unfoldable pub get_file_chunks : ℕ → Db → List FileChunk
get_file_chunks file_id db =
    sort_by (λ a b. leb a.chunk_index b.chunk_index)
      (select (λ l. l.file_id == file_id) db.file_chunks)

abbrev pub total_chunk_size : List FileChunk → ℕ
total_chunk_size [] = 0
total_chunk_size (l ∷ ls) = l.chunk_size + total_chunk_size ls

unfoldable pub get_file_downloaded_size : ℕ → Db → ℕ
get_file_downloaded_size file_id db =
    total_chunk_size (select (λ l. l.file_id == file_id) db.file_chunks)
