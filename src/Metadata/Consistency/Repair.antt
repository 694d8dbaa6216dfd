-- ===== src/Metadata/Consistency/Repair.antt =====
-- What `reconcile_chunk_refs` of src/metadata.rs establishes, from any counts.
use hugrs.Prelude.{
  ℕ, ◌+◌, ◌≡◌, refl, ap, String, Bool, true, false, List, [], ◌∷◌, map, pos, All, is_some, ◌∙◌,
  eqb→≡, length, ◌==◌, length-map, arith,
}
use hugrs.Metadata.Tables.{Chunk, FileChunk, Db, refs}
use hugrs.Metadata.Reconcile.{
  reconcile_chunk_refs, repair_row, count_rows, count_row, no_result, ReconcileChunkRefsResult,
}
use hugrs.Metadata.Refs.{Linked-mono, has_chunk-map}
use hugrs.Metadata.Consistency.{RefsExact, IsConsistent}

pub repair_row-exact : (now : String) (n : ℕ) (c : Chunk) → (repair_row now n c).ref_count ≡ pos n
unfolding repair_row
repair_row-exact now n c = ground (arith, eqb→≡ c.ref_count n)

pub repair_row-sha256 : (now : String) (n : ℕ) (c : Chunk) → (repair_row now n c).sha256 ≡ c.sha256
unfolding repair_row
repair_row-sha256 now n c = ground arith

-- A chunk without links is marked as an orphan, and one with links is not.
abbrev pub IsMarked : List FileChunk → Chunk → Type 0
IsMarked ls c = is_some c.orphaned_at ≡ (refs c.sha256 ls == 0)

abbrev repaired : String → List FileChunk → Chunk → Chunk
repaired now ls c = repair_row now (refs c.sha256 ls) c

repaired-exact :
    (now : String) (ls : List FileChunk) (cs : List Chunk) → RefsExact ls (map (repaired now ls) cs)
repaired-exact now ls [] = tt
repaired-exact now ls (c ∷ cs) =
    (rw (repair_row-sha256, repair_row-exact), repaired-exact now ls cs)

repair_row-marked :
    (now : String) (n : ℕ) (c : Chunk) → is_some (repair_row now n c).orphaned_at ≡ (n == 0)
unfolding repair_row
repair_row-marked now n c = ground arith

repaired-IsMarked :
    (now : String) (ls : List FileChunk) (cs : List Chunk)
    → All (IsMarked ls) (map (repaired now ls) cs)
repaired-IsMarked now ls [] = tt
repaired-IsMarked now ls (c ∷ cs) =
    (rw (repair_row-sha256, repair_row-marked), repaired-IsMarked now ls cs)

-- From any counts and any marks, a repair that is not a dry run makes every count the number of
-- links and marks exactly the chunks without links. The files and the links stay as they are.
pub reconcile_repairs :
    (now : String) (db : Db)
    → RefsExact db.file_chunks (reconcile_chunk_refs now false db).1.chunks
      × All (IsMarked db.file_chunks) (reconcile_chunk_refs now false db).1.chunks
      × ((reconcile_chunk_refs now false db).1.file_chunks ≡ db.file_chunks)
      × ((reconcile_chunk_refs now false db).1.files ≡ db.files)
unfolding reconcile_chunk_refs
reconcile_repairs now db = (
  repaired-exact now db.file_chunks db.chunks,
  repaired-IsMarked now db.file_chunks db.chunks,
  refl,
  refl,
)

count_row_settled :
    (n : ℕ) (c : Chunk) (r : ReconcileChunkRefsResult)
    → c.ref_count ≡ pos n
    → is_some c.orphaned_at ≡ (n == 0)
    → count_row n c r ≡ record r { scanned_chunks = r.scanned_chunks + 1 }
unfolding count_row
count_row_settled n c r e m = ground arith

-- When the counts and the marks of the rows are right, rows are counted as scanned and nothing else.
count_rows_settled :
    (db : Db) (cs : List Chunk) (r : ReconcileChunkRefsResult)
    → RefsExact db.file_chunks cs
    → All (IsMarked db.file_chunks) cs
    → count_rows db cs r ≡ record r { scanned_chunks = r.scanned_chunks + length cs }
unfolding count_rows
count_rows_settled db [] r e m = ground arith
count_rows_settled db (c ∷ cs) r e m =
    rw (count_row_settled (refs c.sha256 db.file_chunks) c r e.0 m.0)
      (count_rows_settled db cs _ e.1 m.1 ∙ ap (λ n. record r { scanned_chunks = n }) (omega arith))

-- A second reconciliation, dry or not, scans every chunk and finds nothing to fix.
pub reconcile_twice :
    (now later : String) (dry : Bool) (db : Db)
    → (reconcile_chunk_refs later dry (reconcile_chunk_refs now false db).1).0
      ≡ record no_result { scanned_chunks = length db.chunks }
unfolding reconcile_chunk_refs
reconcile_twice now later dry db =
    count_rows_settled (record db { chunks = map (repaired now db.file_chunks) db.chunks })
      (map (repaired now db.file_chunks) db.chunks) no_result
      (repaired-exact now db.file_chunks db.chunks) (repaired-IsMarked now db.file_chunks db.chunks)
    ∙ ap (λ n. record no_result { scanned_chunks = n })
        (omega (arith, length-map (repaired now db.file_chunks) db.chunks))

pub reconcile_chunk_refs-IsConsistent :
    (now : String) (dry : Bool) (db : Db)
    → IsConsistent db
    → IsConsistent (reconcile_chunk_refs now dry db).1
unfolding reconcile_chunk_refs
reconcile_chunk_refs-IsConsistent now true db v = v
reconcile_chunk_refs-IsConsistent now false db v = record {
  refs_exact = repaired-exact now db.file_chunks db.chunks;
  linked =
      Linked-mono db.file_chunks db.chunks _
        (λ s.
          rw
            (has_chunk-map (repaired now db.file_chunks) s db.chunks
              (λ c. repair_row-sha256 now (refs c.sha256 db.file_chunks) c))
            (λ o. o))
        v.linked;
  owned = v.owned;
  keys = v.keys;
}
