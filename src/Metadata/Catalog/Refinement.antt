-- ===== src/Metadata/Catalog/Refinement.antt =====
-- Every call on the tables does to the catalogue what is promised of it.
use hugrs.Prelude.{
  ◌≡◌, refl, sym, ap, ◌∙◌, fun_ext, String, List, [], ◌∷◌, if◌then◌else◌, Bool-cases, inl, inr,
}
use hugrs.Metadata.Tables.{FileChunk, Db, empty, has_chunk}
use hugrs.Metadata.Links.{link_file_chunk}
use hugrs.Metadata.Consistency.{IsConsistent}
use hugrs.Metadata.Consistency.History.{
  Call, adds, sets_headers, touches, ensures, links, ensures_and_links, marks, clears, deletes_file,
  deletes_repo, deletes_chunk, deletes_batch, reconciles, call, calls, calls-IsConsistent, settle,
}
use hugrs.Metadata.Catalog.{Catalog, view, promised, chunk_known, change_parts, put_missing}
use hugrs.Metadata.Catalog.Indexed.{IsIndexed}
use hugrs.Metadata.Catalog.Removing.{entries_at, view-entries}
use hugrs.Metadata.Catalog.Naming.{
  delete_file-entries, delete_files_by_repo-entries, delete_file-last_id, delete_file-IsIndexed,
  delete_files_by_repo-last_id, delete_files_by_repo-IsIndexed,
}
use hugrs.Metadata.Catalog.Adding.{
  add_file-entries, add_file-last_id, add_file-IsIndexed, set_file_headers-entries,
  set_file_headers-IsIndexed, touch_repo-entries, touch_repo-IsIndexed, set_file_headers-last_id,
  touch_repo-last_id,
}
use hugrs.Metadata.Catalog.Linking.{link_file_chunk-entries, ensure_chunk_and_link-entries}
use hugrs.Metadata.Catalog.Quiet.{
  SameFiles-IsIndexed, Quiet, Quiet-entries, link_file_chunk-SameFiles,
  ensure_chunk_and_link-SameFiles, ensure_chunk-Quiet, mark_chunk_orphaned-Quiet,
  clear_chunk_orphaned-Quiet, delete_chunk-Quiet, delete_chunks_batch-Quiet,
  reconcile_chunk_refs-Quiet,
}

-- The view of a database, with its entries by rows.
abbrev row_view : Db → Catalog
row_view db = record { last_id = db.last_file_id; entries = entries_at db }

view-rows : (db : Db) → view db ≡ row_view db
unfolding view
view-rows db i = record {
  last_id = db.last_file_id;
  entries = fun_ext (λ n. fun_ext (λ s. view-entries db n s)) i;
}

-- A catalogue is its counter and its entries.
same_catalog :
    (db : Db) (c : Catalog)
    → db.last_file_id ≡ c.last_id
    → ((n s : String) → entries_at db n s ≡ c.entries n s)
    → view db ≡ c
same_catalog db c last entries = view-rows db ∙ joined
  where
    joined : row_view db ≡ c
    joined i = record { last_id = last i; entries = fun_ext (λ n. fun_ext (λ s. entries n s)) i }

Quiet-view : (db db' : Db) → Quiet db db' → view db' ≡ row_view db
Quiet-view db db' q = same_catalog db' (row_view db) q.0.1 (λ n s. Quiet-entries db db' n s q)

links-rows :
    (l : FileChunk) (db : Db)
    → view (settle (λ r. r) db (link_file_chunk l db)) ≡ (
        if has_chunk l.sha256 db.chunks
        then change_parts l.file_id (put_missing l.chunk_index l.sha256) (row_view db)
        else row_view db)
links-rows l db = elim (Bool-cases (has_chunk l.sha256 db.chunks)) [
  | inl known ↦ rw known (
      same_catalog _ _ (link_file_chunk-SameFiles l db).1
        (λ n s. link_file_chunk-entries l db n s ∙ rw known refl))
  | inr unknown ↦ rw unknown (
      same_catalog _ _ (link_file_chunk-SameFiles l db).1
        (λ n s. link_file_chunk-entries l db n s ∙ rw unknown refl))
]

call-rows :
    (now : String) (c : Call) (db : Db)
    → IsConsistent db
    → IsIndexed db
    → view (call now c db) ≡ promised (chunk_known c db) c (row_view db)
unfolding call promised
call-rows now (adds name repo size source) db v w =
    same_catalog _ _ (add_file-last_id now name repo size source db)
      (λ n s. add_file-entries now name repo size source db n s v w)
call-rows now (sets_headers name source h) db v w =
    same_catalog _ _ (set_file_headers-last_id name source h db)
      (λ n s. set_file_headers-entries name source h db n s)
call-rows now (touches repo) db v w =
    same_catalog _ _ (touch_repo-last_id now repo db) (λ n s. touch_repo-entries now repo db n s)
call-rows now (ensures sha256 backend path size compressed) db v w =
    Quiet-view db _ (ensure_chunk-Quiet now sha256 backend path size compressed db)
call-rows now (links l) db v w = links-rows l db
call-rows now (ensures_and_links backend path size compressed l) db v w =
    same_catalog _ _ (ensure_chunk_and_link-SameFiles now backend path size compressed l db).1
      (λ n s. ensure_chunk_and_link-entries now backend path size compressed l db n s)
call-rows now (marks sha256) db v w = Quiet-view db _ (mark_chunk_orphaned-Quiet now sha256 db)
call-rows now (clears sha256) db v w = Quiet-view db _ (clear_chunk_orphaned-Quiet sha256 db)
call-rows now (deletes_file name source) db v w =
    same_catalog _ _ (delete_file-last_id now name source db)
      (λ n s. delete_file-entries now name source db n s w)
call-rows now (deletes_repo repo) db v w =
    same_catalog _ _ (delete_files_by_repo-last_id now repo db)
      (λ n s. delete_files_by_repo-entries now repo db n s w)
call-rows now (deletes_chunk sha256) db v w = Quiet-view db _ (delete_chunk-Quiet sha256 db)
call-rows now (deletes_batch ss) db v w = Quiet-view db _ (delete_chunks_batch-Quiet ss db)
call-rows now (reconciles dry) db v w = Quiet-view db _ (reconcile_chunk_refs-Quiet now dry db)

call-IsIndexed : (now : String) (c : Call) (db : Db) → IsIndexed db → IsIndexed (call now c db)
unfolding call
call-IsIndexed now (adds name repo size source) db w =
    add_file-IsIndexed now name repo size source db w
call-IsIndexed now (sets_headers name source h) db w = set_file_headers-IsIndexed name source h db w
call-IsIndexed now (touches repo) db w = touch_repo-IsIndexed now repo db w
call-IsIndexed now (ensures sha256 backend path size compressed) db w =
    SameFiles-IsIndexed db _ (ensure_chunk-Quiet now sha256 backend path size compressed db).0 w
call-IsIndexed now (links l) db w = SameFiles-IsIndexed db _ (link_file_chunk-SameFiles l db) w
call-IsIndexed now (ensures_and_links backend path size compressed l) db w =
    SameFiles-IsIndexed db _ (ensure_chunk_and_link-SameFiles now backend path size compressed l db)
      w
call-IsIndexed now (marks sha256) db w =
    SameFiles-IsIndexed db _ (mark_chunk_orphaned-Quiet now sha256 db).0 w
call-IsIndexed now (clears sha256) db w =
    SameFiles-IsIndexed db _ (clear_chunk_orphaned-Quiet sha256 db).0 w
call-IsIndexed now (deletes_file name source) db w = delete_file-IsIndexed now name source db w
call-IsIndexed now (deletes_repo repo) db w = delete_files_by_repo-IsIndexed now repo db w
call-IsIndexed now (deletes_chunk sha256) db w =
    SameFiles-IsIndexed db _ (delete_chunk-Quiet sha256 db).0 w
call-IsIndexed now (deletes_batch ss) db w =
    SameFiles-IsIndexed db _ (delete_chunks_batch-Quiet ss db).0 w
call-IsIndexed now (reconciles dry) db w =
    SameFiles-IsIndexed db _ (reconcile_chunk_refs-Quiet now dry db).0 w

calls-IsIndexed_from :
    (cs : List (String × Call)) (db : Db) → IsIndexed db → IsIndexed (calls cs db)
unfolding calls
calls-IsIndexed_from [] db w = w
calls-IsIndexed_from ((now, c) ∷ cs) db w =
    calls-IsIndexed_from cs (call now c db) (call-IsIndexed now c db w)

-- After any calls on the empty database, no two files share an id or a name and source, and every id
-- is at most the counter.
pub calls-IsIndexed : (cs : List (String × Call)) → IsIndexed (calls cs empty)
calls-IsIndexed cs = calls-IsIndexed_from cs empty (record { distinct = tt; bounded = tt })

-- On every database that calls on the empty one lead to, each further call does to the catalogue what
-- is promised of that call, where a new link's chunk counts as known if its row is there.
pub call-promised :
    (cs : List (String × Call)) (now : String) (c : Call)
    → view (call now c (calls cs empty))
      ≡ promised (chunk_known c (calls cs empty)) c (view (calls cs empty))
call-promised cs now c =
    call-rows now c (calls cs empty) (calls-IsConsistent cs) (calls-IsIndexed cs)
    ∙ ap (promised (chunk_known c (calls cs empty)) c) (sym (view-rows (calls cs empty)))
