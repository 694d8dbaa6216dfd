-- ===== src/Tests/Metadata.antt =====
-- The theorems on the metadata store, at the sample database.
use hugrs.Prelude.{◌≡◌, ◌≢◌, refl, String, true, false, ok, All, str_eq, eq_iff, arith}
use hugrs.Metadata.Tables.{Db, empty, refs}
use hugrs.Metadata.Files.{add_file, new_file}
use hugrs.Metadata.Chunks.{ensure_chunk, list_orphan_chunks_batch, is_orphan}
use hugrs.Metadata.Links.{
  add_ref, drop_ref, relink_current, relink, unlink_old, replace_link, ensure_chunk_and_link,
  is_chunk_linked,
}
use hugrs.Metadata.Reconcile.{reconcile_chunk_refs}
use hugrs.Metadata.Consistency.{RefsExact, IsConsistent}
use hugrs.Metadata.Consistency.History.{call, calls, calls-IsConsistent}
use hugrs.Metadata.Consistency.Repair.{IsMarked, reconcile_repairs}
use hugrs.Metadata.Orphans.{IsUnlinked, batch-IsUnlinked, relink_strands}
use hugrs.Tests.Samples.{now, other_link, sample_calls, sample_db, deleting_calls}

calls-IsConsistent_example : IsConsistent (calls deleting_calls empty)
calls-IsConsistent_example = calls-IsConsistent deleting_calls

reconcile_repairs_example :
    RefsExact sample_db.file_chunks (reconcile_chunk_refs now false sample_db).1.chunks
    × All (IsMarked sample_db.file_chunks) (reconcile_chunk_refs now false sample_db).1.chunks
    × ((reconcile_chunk_refs now false sample_db).1.file_chunks ≡ sample_db.file_chunks)
    × ((reconcile_chunk_refs now false sample_db).1.files ≡ sample_db.files)
reconcile_repairs_example = reconcile_repairs now sample_db

batch-IsUnlinked_example :
    All
      (IsUnlinked (calls deleting_calls empty))
      (list_orphan_chunks_batch 10 (calls deleting_calls empty))
batch-IsUnlinked_example =
    batch-IsUnlinked 10 (calls deleting_calls empty) (calls-IsConsistent deleting_calls)

names_ne : ◌≢◌ {A = String} "aa11" "bb22"
names_ne e = never ((eq_iff "aa11" "bb22").1 e)
  where
    never : false ≡ true → ⊥
    never h = ground arith

relink_strands_example :
    (db' : Db) × (ensure_chunk_and_link now "local" "bb/22/bb22" 3 3 other_link sample_db ≡ ok db')
    × (refs "aa11" db'.file_chunks ≡ 0)
    × All (λ c. str_eq c.sha256 "aa11" ≡ true → is_orphan c ≡ false) db'.chunks
unfolding calls call add_file new_file ensure_chunk_and_link ensure_chunk relink_current relink
    unlink_old replace_link is_chunk_linked refs add_ref drop_ref
relink_strands_example =
    relink_strands now "local" "bb/22/bb22" 3 3 "aa11" other_link sample_db
      (calls-IsConsistent sample_calls) refl names_ne refl ((λ h. refl), tt)
