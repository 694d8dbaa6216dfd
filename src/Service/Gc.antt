-- ===== src/Service/Gc.antt =====
-- `gc_dry_run` and `gc_execute_batch` of src/service.rs.
pub mod Safety
use hugrs.Prelude.{
  ℕ, suc, ◌+◌, String, Bool, true, false, Option, none, some, List, [], ◌∷◌, map, Result, ok, err,
  is_zero, str_eq, ltb, if◌then◌else◌, find, take, length,
}
use hugrs.Metadata.Tables.{Chunk, Db, SqlError}
use hugrs.Metadata.Chunks.{
  list_orphan_chunks_batch, list_orphan_chunks_stats, delete_chunks_batch, stored_size,
}
use hugrs.Storage.Trait.{StorageBackend}

-- The errors of the service: those of the chunk store and those of the metadata store.
pub data ServiceError : Type 0 where
  backend_failed : String → ServiceError
  sql_failed : SqlError → ServiceError

pub record GcPreview : Type 0 where
  pub candidate_chunks : ℕ
  pub candidate_bytes : ℕ

unfoldable pub gc_dry_run : Db → GcPreview
gc_dry_run db =
    let (chunks, bytes) = list_orphan_chunks_stats db in
    record { candidate_chunks = chunks; candidate_bytes = bytes }

pub record GcResult : Type 0 where
  pub deleted_chunks : ℕ
  pub reclaimed_bytes : ℕ
  pub skipped_chunks : ℕ
  pub has_more : Bool

-- The chunks whose data is gone, with the bytes that each freed, and the number of chunks skipped.
pub record Swept : Type 0 where
  pub deleted_sha256s : List (String × ℕ)
  pub skipped : ℕ

abbrev pub keys_of : List (String × ℕ) → List String
keys_of = map (λ x. x.0)

-- The final loop over what the metadata store deleted.
unfoldable pub tally : List (String × ℕ) → List String → GcResult → GcResult
tally swept [] r = r
tally swept (s ∷ ss) r = tally swept ss (elim (find (λ x. str_eq x.0 s) swept) [
  | none ↦ r
  | some x ↦ record r {
    deleted_chunks = r.deleted_chunks + 1;
    reclaimed_bytes = r.reclaimed_bytes + x.1;
  }
])

module _ (b : StorageBackend) where
  abbrev pub State : Type 0
  State = Db × b.Store

  unfoldable pub push_swept : Chunk → Result String Swept → Result String Swept
  push_swept c (err e) = err e
  push_swept c (ok w) =
      ok (record w { deleted_sha256s = (c.sha256, stored_size c) ∷ w.deleted_sha256s })

  unfoldable pub skip_one : Result String Swept → Result String Swept
  skip_one (err e) = err e
  skip_one (ok w) = ok (record w { skipped = suc w.skipped })

  -- The loop over the batch; an error of the store ends it with what was deleted before.
  unfoldable pub sweep : List Chunk → b.Store → Result String Swept × b.Store
  unfolding push_swept skip_one
  sweep [] s = (ok (record { deleted_sha256s = []; skipped = 0 }), s)
  sweep (c ∷ cs) s = elim (is_zero c.ref_count) [
    | false ↦ let (r, s') = sweep cs s in (skip_one r, s')
    | true ↦
        let (deleted, s1) = b.delete c.sha256 s in
        elim deleted [
          | err e ↦ (err e, s1)
          | ok _ ↦ let (r, s') = sweep cs s1 in (push_swept c r, s')
        ]
  ]

  unfoldable pub counted :
      GcResult → Swept → Result SqlError (List String × Db) → Db → Result ServiceError GcResult × Db
  counted r w (ok (deleted, db')) db = (ok (tally w.deleted_sha256s deleted r), db')
  counted r w (err e) db = (err (sql_failed e), db)

  -- The rows go only when some data went.
  unfoldable pub forget : Bool → Result String Swept → Db → Result ServiceError GcResult × Db
  unfolding counted tally
  forget has_more (err e) db = (err (backend_failed e), db)
  forget has_more (ok w) db = counted r w (delete_chunks_batch (keys_of w.deleted_sha256s) db) db
    where
      r : GcResult
      r = record {
        deleted_chunks = 0;
        reclaimed_bytes = 0;
        skipped_chunks = w.skipped;
        has_more = has_more;
      }

  unfoldable pub gc_execute_batch : ℕ → State → Result ServiceError GcResult × State
  unfolding forget sweep
  gc_execute_batch batch_size (db, s) =
      let orphans = list_orphan_chunks_batch (batch_size + 1) db in
      let has_more = ltb batch_size (length orphans) in
      let (r, s') = sweep (if has_more then take batch_size orphans else orphans) s in
      let (result, db') = forget has_more r db in (result, (db', s'))
