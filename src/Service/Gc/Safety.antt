-- ===== src/Service/Gc/Safety.antt =====
-- What a collection leaves alone.
use hugrs.Prelude.{
  ℕ, ◌+◌, ◌≡◌, ◌≢◌, refl, ap, ◌∙◌, String, Bool, true, false, List, [], ◌∷◌, Result, ok, err, All,
  All-take, All-mono, ◌⊎◌, ◌<◌, Bool-cases, inl, inr, is_zero, if◌then◌else◌, ltb, take, length,
  arith,
}
use hugrs.Metadata.Tables.{Chunk, Db, SqlError, refs}
use hugrs.Metadata.Chunks.{list_orphan_chunks_batch, delete_chunks_batch}
use hugrs.Metadata.Consistency.{IsConsistent, OnOk}
use hugrs.Metadata.Consistency.Deleting.{
  delete_chunks_batch-IsConsistent, delete_chunks_batch-keeps,
}
use hugrs.Metadata.Orphans.{IsUnlinked, batch-IsUnlinked}
use hugrs.Storage.Trait.{StorageBackend, IsSeparate}
use hugrs.Service.Gc.{GcResult, Swept, sweep, forget, counted, keys_of, gc_execute_batch}

deleted_cases : (r : Result String (Unit {0})) → ((e : String) × (r ≡ err e)) ⊎ (r ≡ ok tt)
deleted_cases (ok tt) = inr refl
deleted_cases (err e) = inl (e, refl)

All-if :
    (P : Chunk → Type 0) (xs ys : List Chunk) (t : Bool)
    → All P xs
    → All P ys
    → All P (if t then xs else ys)
All-if P xs ys true a b = a
All-if P xs ys false a b = b

module _ (b : StorageBackend) (separate : IsSeparate b) where
  -- The loop leaves the data under every name that is not in the batch.
  sweep-get :
      (j : String) (cs : List Chunk) (s : b.Store)
      → All (λ c. c.sha256 ≢ j) cs
      → b.get j (sweep b cs s).1 ≡ b.get j s
  unfolding sweep
  sweep-get j [] s a = refl
  sweep-get j (c ∷ cs) s a = elim (Bool-cases (is_zero c.ref_count)) [
    | inl zero ↦ elim (deleted_cases (b.delete c.sha256 s).0) [
      | inl (e, failed) ↦ rw (zero, failed, sweep) (separate.get-delete_ne c.sha256 j s a.0)
      | inr done ↦
          rw (zero, done, sweep)
            (sweep-get j cs (b.delete c.sha256 s).1 a.1 ∙ separate.get-delete_ne c.sha256 j s a.0)
    ]
    | inr kept ↦ rw (kept, sweep) (sweep-get j cs s a.1)
  ]

  -- What the metadata store forgets after a sweep keeps the links, and keeps it consistent.
  abbrev pub Kept : Db → Db → Type 0
  Kept db db' = IsConsistent db' × (db'.file_chunks ≡ db.file_chunks) × (db'.files ≡ db.files)

  forget-Kept :
      (has_more : Bool) (r : Result String Swept) (db : Db)
      → IsConsistent db
      → Kept db (forget b has_more r db).1
  unfolding forget
  forget-Kept has_more (err e) db v = (v, refl, refl)
  forget-Kept has_more (ok w) db v =
      counted-Kept _ (delete_chunks_batch (keys_of w.deleted_sha256s) db)
        (delete_chunks_batch-IsConsistent (keys_of w.deleted_sha256s) db v)
        (delete_chunks_batch-keeps (keys_of w.deleted_sha256s) db)
    where
      counted-Kept :
          (g : GcResult) (x : Result SqlError (List String × Db))
          → OnOk (λ r. IsConsistent r.1) x
          → OnOk (λ r. (r.1.file_chunks ≡ db.file_chunks) × (r.1.files ≡ db.files)) x
          → Kept db (counted b g w x db).1
      counted-Kept g (ok (deleted, db')) c k = (c, k.0, k.1)
      counted-Kept g (err e) c k = (v, refl, refl)

  -- A collection keeps the links and the files, and a consistent database.
  pub gc-Kept :
      (batch_size : ℕ) (db : Db) (s : b.Store)
      → IsConsistent db
      → Kept db (gc_execute_batch b batch_size (db, s)).1.0
  unfolding gc_execute_batch
  gc-Kept batch_size db s v = forget-Kept _ _ db v

  unlinked-ne :
      (j : String) (db : Db)
      → 0 < refs j db.file_chunks
      → (c : Chunk) → IsUnlinked db c
      → c.sha256 ≢ j
  unlinked-ne j db linked c u e = absurd (omega (arith, ap (λ t. refs t db.file_chunks) e))

  -- For a chunk store that keeps names apart, a consistent database and a chunk that some link
  -- names: a collection, finished or broken off by an error of the chunk store, leaves the data of
  -- the chunk, the files and the links as they are, and the database consistent.
  pub gc_keeps_linked :
      (batch_size : ℕ) (db : Db) (s : b.Store) (j : String)
      → IsConsistent db
      → 0 < refs j db.file_chunks
      → let after = (gc_execute_batch b batch_size (db, s)).1 in
        (b.get j after.1 ≡ b.get j s)
        × IsConsistent after.0
        × (after.0.file_chunks ≡ db.file_chunks)
        × (after.0.files ≡ db.files)
  unfolding gc_execute_batch
  gc_keeps_linked batch_size db s j v linked =
      let k = forget-Kept _ _ db v in (sweep-get j _ s batch, k.0, k.1, k.2)
    where
      offered : All (λ c. c.sha256 ≢ j) (list_orphan_chunks_batch (batch_size + 1) db)
      offered = All-mono (unlinked-ne j db linked) _ (batch-IsUnlinked (batch_size + 1) db v)

      batch :
          All
            (λ c. c.sha256 ≢ j)
            (if ltb batch_size (length (list_orphan_chunks_batch (batch_size + 1) db))
              then take batch_size (list_orphan_chunks_batch (batch_size + 1) db)
              else list_orphan_chunks_batch (batch_size + 1) db)
      batch =
          All-if _ _ _ (ltb batch_size (length (list_orphan_chunks_batch (batch_size + 1) db)))
            (All-take _ batch_size _ offered) offered
