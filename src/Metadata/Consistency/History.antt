-- ===== src/Metadata/Consistency/History.antt =====
-- Every sequence of the calls that src/metadata.rs offers, from the empty database on.
use hugrs.Prelude.{ℕ, String, Bool, List, [], ◌∷◌, Result, ok, err}
use hugrs.Metadata.Tables.{FileChunk, Db, SqlError, empty}
use hugrs.Metadata.Files.{Headers, add_file, set_file_headers, touch_repo}
use hugrs.Metadata.Chunks.{
  ensure_chunk, mark_chunk_orphaned, clear_chunk_orphaned, delete_chunk, delete_chunks_batch,
}
use hugrs.Metadata.Links.{link_file_chunk, ensure_chunk_and_link}
use hugrs.Metadata.Deletion.{delete_file, delete_files_by_repo}
use hugrs.Metadata.Reconcile.{reconcile_chunk_refs}
use hugrs.Metadata.Consistency.{
  IsConsistent, OnOk, IsConsistent-empty, add_file-IsConsistent, set_file_headers-IsConsistent,
  touch_repo-IsConsistent, mark_chunk_orphaned-IsConsistent, clear_chunk_orphaned-IsConsistent,
  ensure_chunk-IsConsistent,
}
use hugrs.Metadata.Consistency.Linking.{
  link_file_chunk-IsConsistent, ensure_chunk_and_link-IsConsistent,
}
use hugrs.Metadata.Consistency.Deleting.{
  delete_file-IsConsistent, delete_files_by_repo-IsConsistent, delete_chunk-IsConsistent,
  delete_chunks_batch-IsConsistent,
}
use hugrs.Metadata.Consistency.Repair.{reconcile_chunk_refs-IsConsistent}

-- The calls that write, each with the time at which it runs.
pub data Call : Type 0 where
  adds : String → String → ℕ → String → Call
  sets_headers : String → String → Headers → Call
  touches : String → Call
  ensures : String → String → String → ℕ → ℕ → Call
  links : FileChunk → Call
  ensures_and_links : String → String → ℕ → ℕ → FileChunk → Call
  marks : String → Call
  clears : String → Call
  deletes_file : String → String → Call
  deletes_repo : String → Call
  deletes_chunk : String → Call
  deletes_batch : List String → Call
  reconciles : Bool → Call

-- A refused call is rolled back, and leaves the database as it was.
abbrev pub settle {ℓ} : {A : Type ℓ} → (A → Db) → Db → Result SqlError A → Db
settle get db (ok a) = get a
settle get db (err e) = db

unfoldable pub call : String → Call → Db → Db
call now (adds name repo size source) db =
    settle (λ r. r.1) db (add_file now name repo size source db)
call now (sets_headers name source h) db = set_file_headers name source h db
call now (touches repo) db = touch_repo now repo db
call now (ensures sha256 backend path size compressed) db =
    ensure_chunk now sha256 backend path size compressed db
call now (links l) db = settle (λ r. r) db (link_file_chunk l db)
call now (ensures_and_links backend path size compressed l) db =
    settle (λ r. r) db (ensure_chunk_and_link now backend path size compressed l db)
call now (marks sha256) db = mark_chunk_orphaned now sha256 db
call now (clears sha256) db = clear_chunk_orphaned sha256 db
call now (deletes_file name source) db = (delete_file now name source db).1
call now (deletes_repo repo) db = (delete_files_by_repo now repo db).1
call now (deletes_chunk sha256) db = settle (λ r. r.1) db (delete_chunk sha256 db)
call now (deletes_batch sha256s) db = settle (λ r. r.1) db (delete_chunks_batch sha256s db)
call now (reconciles dry) db = (reconcile_chunk_refs now dry db).1

unfoldable pub calls : List (String × Call) → Db → Db
unfolding call
calls [] db = db
calls ((now, c) ∷ cs) db = calls cs (call now c db)

settle-IsConsistent :
    {A : Type 0} (get : A → Db) (db : Db) (r : Result SqlError A)
    → IsConsistent db
    → OnOk (λ a. IsConsistent (get a)) r
    → IsConsistent (settle get db r)
settle-IsConsistent get db (ok a) v h = h
settle-IsConsistent get db (err e) v h = v

pub call-IsConsistent :
    (now : String) (c : Call) (db : Db) → IsConsistent db → IsConsistent (call now c db)
unfolding call
call-IsConsistent now (adds name repo size source) db v =
    settle-IsConsistent _ db _ v (add_file-IsConsistent now name repo size source db v)
call-IsConsistent now (sets_headers name source h) db v =
    set_file_headers-IsConsistent name source h db v
call-IsConsistent now (touches repo) db v = touch_repo-IsConsistent now repo db v
call-IsConsistent now (ensures sha256 backend path size compressed) db v =
    ensure_chunk-IsConsistent now sha256 backend path size compressed db v
call-IsConsistent now (links l) db v =
    settle-IsConsistent _ db _ v (link_file_chunk-IsConsistent l db v)
call-IsConsistent now (ensures_and_links backend path size compressed l) db v =
    settle-IsConsistent _ db _ v
      (ensure_chunk_and_link-IsConsistent now backend path size compressed l db v)
call-IsConsistent now (marks sha256) db v = mark_chunk_orphaned-IsConsistent now sha256 db v
call-IsConsistent now (clears sha256) db v = clear_chunk_orphaned-IsConsistent sha256 db v
call-IsConsistent now (deletes_file name source) db v =
    delete_file-IsConsistent now name source db v
call-IsConsistent now (deletes_repo repo) db v = delete_files_by_repo-IsConsistent now repo db v
call-IsConsistent now (deletes_chunk sha256) db v =
    settle-IsConsistent _ db _ v (delete_chunk-IsConsistent sha256 db v)
call-IsConsistent now (deletes_batch sha256s) db v =
    settle-IsConsistent _ db _ v (delete_chunks_batch-IsConsistent sha256s db v)
call-IsConsistent now (reconciles dry) db v = reconcile_chunk_refs-IsConsistent now dry db v

pub calls-IsConsistent_from :
    (cs : List (String × Call)) (db : Db) → IsConsistent db → IsConsistent (calls cs db)
unfolding calls
calls-IsConsistent_from [] db v = v
calls-IsConsistent_from ((now, c) ∷ cs) db v =
    calls-IsConsistent_from cs (call now c db) (call-IsConsistent now c db v)

-- After any calls on the empty database, refused ones included, the count of every chunk is the
-- number of rows that link it, and every such row names a chunk and a file that are there, at a
-- key of its own.
pub calls-IsConsistent : (cs : List (String × Call)) → IsConsistent (calls cs empty)
calls-IsConsistent cs = calls-IsConsistent_from cs empty IsConsistent-empty
