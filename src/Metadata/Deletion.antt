-- ===== src/Metadata/Deletion.antt =====
-- `delete_file`, `delete_file_by_id_tx` and `delete_files_by_repo` of src/metadata.rs.
use hugrs.Prelude.{
  ℕ, String, Bool, true, false, not, Option, none, some, List, [], ◌∷◌, map, pos, ◌-ℤ◌, is_zero,
  str_eq, ◌==◌, if◌then◌else◌, find, select, length,
}
use hugrs.Metadata.Tables.{File, Chunk, FileChunk, Db, is_named, refs}

-- The row of GROUP BY sha256 for this chunk; 0 where there is none.
unfoldable pub refs_lost : ℕ → String → List FileChunk → ℕ
refs_lost file_id sha256 ls = refs sha256 (select (λ l. l.file_id == file_id) ls)

-- The UPDATE over the chunks that the file references.
unfoldable pub lose_refs : String → ℕ → Chunk → Chunk
lose_refs now lost c = if lost == 0 then c else record c {
  ref_count = c.ref_count -ℤ pos lost;
  orphaned_at = if is_zero (c.ref_count -ℤ pos lost) then some now else c.orphaned_at;
}

unfoldable pub delete_file_by_id_tx : String → ℕ → Db → Db
unfolding lose_refs refs_lost
delete_file_by_id_tx now file_id db = record db {
  chunks = map (λ c. lose_refs now (refs_lost file_id c.sha256 db.file_chunks) c) db.chunks;
  file_chunks = select (λ l. not (l.file_id == file_id)) db.file_chunks;
  files = select (λ f. not (f.id == file_id)) db.files;
}

delete_found : String → Option File → Db → Bool × Db
delete_found now none db = (false, db)
delete_found now (some f) db = (true, delete_file_by_id_tx now f.id db)

unfoldable pub delete_file : String → String → String → Db → Bool × Db
unfolding delete_found
delete_file now name source db = delete_found now (find (is_named name source) db.files) db

unfoldable pub delete_ids : String → List ℕ → Db → Db
delete_ids now [] db = db
delete_ids now (id ∷ ids) db = delete_ids now ids (delete_file_by_id_tx now id db)

abbrev pub repo_file_ids : String → Db → List ℕ
repo_file_ids repo db = map (λ (f : File). f.id) (select (λ f. str_eq f.repo repo) db.files)

unfoldable pub delete_files_by_repo : String → String → Db → ℕ × Db
unfolding delete_ids
delete_files_by_repo now repo db =
    (length (repo_file_ids repo db), delete_ids now (repo_file_ids repo db) db)
