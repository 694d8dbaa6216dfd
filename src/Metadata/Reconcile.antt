-- ===== src/Metadata/Reconcile.antt =====
-- `reconcile_chunk_refs` of src/metadata.rs: reference counts recomputed from the links.
use hugrs.Prelude.{
  ℕ, ◌+◌, String, Bool, true, false, not, ◌&&◌, none, some, List, [], ◌∷◌, map, pos, eqb, is_some,
  is_none, ltb, ◌==◌, if◌then◌else◌,
}
use hugrs.Metadata.Tables.{Chunk, Db, refs}

pub record ReconcileChunkRefsResult : Type 0 where
  pub scanned_chunks : ℕ
  pub mismatched_chunks : ℕ
  pub refcount_fixed : ℕ
  pub orphaned_marked : ℕ
  pub orphaned_cleared : ℕ

abbrev pub no_result : ReconcileChunkRefsResult
no_result = record {
  scanned_chunks = 0;
  mismatched_chunks = 0;
  refcount_fixed = 0;
  orphaned_marked = 0;
  orphaned_cleared = 0;
}

abbrev pub ref_mismatch : ℕ → Chunk → Bool
ref_mismatch actual c = not (eqb c.ref_count (pos actual))

abbrev pub should_clear_orphan : ℕ → Chunk → Bool
should_clear_orphan actual c = ltb 0 actual && is_some c.orphaned_at

abbrev pub should_mark_orphan : ℕ → Chunk → Bool
should_mark_orphan actual c = actual == 0 && is_none c.orphaned_at

abbrev pub is_settled : ℕ → Chunk → Bool
is_settled actual c =
    not (ref_mismatch actual c)
    && not (should_clear_orphan actual c)
    && not (should_mark_orphan actual c)

abbrev one_if : Bool → ℕ
one_if true = 1
one_if false = 0

unfoldable pub count_row : ℕ → Chunk → ReconcileChunkRefsResult → ReconcileChunkRefsResult
count_row actual c r =
    if is_settled actual c then record r { scanned_chunks = r.scanned_chunks + 1 } else record {
      scanned_chunks = r.scanned_chunks + 1;
      mismatched_chunks = r.mismatched_chunks + one_if (ref_mismatch actual c);
      refcount_fixed = r.refcount_fixed + one_if (ref_mismatch actual c);
      orphaned_marked = r.orphaned_marked + one_if (should_mark_orphan actual c);
      orphaned_cleared = r.orphaned_cleared + one_if (should_clear_orphan actual c);
    }

-- The UPDATE statements of one row; `sha256` is the primary key, so they reach that row alone.
unfoldable pub repair_row : String → ℕ → Chunk → Chunk
repair_row now actual c = if is_settled actual c then c else record c {
  ref_count = pos actual;
  orphaned_at =
      if ltb 0 actual then none else if is_none c.orphaned_at then some now else c.orphaned_at;
}

unfoldable pub count_rows : Db → List Chunk → ReconcileChunkRefsResult → ReconcileChunkRefsResult
count_rows db [] r = r
count_rows db (c ∷ cs) r = count_rows db cs (count_row (refs c.sha256 db.file_chunks) c r)

-- A dry run counts, and its transaction is rolled back.
unfoldable pub reconcile_chunk_refs : String → Bool → Db → ReconcileChunkRefsResult × Db
unfolding count_rows count_row repair_row
reconcile_chunk_refs now dry_run db = (
  count_rows db db.chunks no_result,
  if dry_run then db else record db {
    chunks = map (λ c. repair_row now (refs c.sha256 db.file_chunks) c) db.chunks;
  },
)
