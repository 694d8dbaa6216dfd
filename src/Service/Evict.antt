-- ===== src/Service/Evict.antt =====
-- `evict_if_needed` of src/service.rs: collections and deletions of whole repos until the files fit.
pub mod Progress
pub mod Sparing
use hugrs.Prelude.{
  ℕ, zero, suc, ◌+◌, String, Bool, true, false, ◌||◌, Option, none, some, List, [], ◌∷◌, Result, ok,
  err, ltb, leb, if◌then◌else◌, length,
}
use hugrs.Metadata.Tables.{Db}
use hugrs.Metadata.Files.{list_repos_by_access}
use hugrs.Metadata.Deletion.{delete_files_by_repo}
use hugrs.Metadata.Stats.{get_stats}
use hugrs.Storage.Trait.{StorageBackend}
use hugrs.Service.Gc.{ServiceError, GcResult, State, gc_execute_batch}

-- `stats.original_bytes as u64 <= max_size`
unfoldable pub fits : ℕ → Db → Bool
fits max_size db = leb (get_stats db).original_bytes max_size

module _ (b : StorageBackend) where
  -- The repo that was used least recently goes, and its chunks with it as far as a batch reaches.
  -- The result of that collection is dropped.
  unfoldable pub evict_repo : String → List String → State b → Bool × State b
  unfolding gc_execute_batch
  evict_repo now [] st = (false, st)
  evict_repo now (victim ∷ others) (db, s) =
      (true, (gc_execute_batch b 32 ((delete_files_by_repo now victim db).1, s)).1)

  unfoldable pub after_gc :
      String → ℕ → Result ServiceError GcResult → State b → Result ServiceError Bool × State b
  unfolding fits evict_repo
  after_gc now max_size (err e) st = (err e, st)
  after_gc now max_size (ok freed) (db, s) =
      if fits max_size db
      then (ok false, (db, s))
      else if ltb 0 freed.deleted_chunks
      then (ok true, (db, s))
      else let (more, st) = evict_repo now (list_repos_by_access 10 db) (db, s) in (ok more, st)

  -- One turn of the loop: does another follow?
  unfoldable pub evict_turn : String → ℕ → State b → Result ServiceError Bool × State b
  unfolding after_gc gc_execute_batch
  evict_turn now max_size st =
      let (freed, st') = gc_execute_batch b 32 st in after_gc now max_size freed st'

  -- The loop, on fuel: none where the fuel is used up.
  unfoldable pub evict_rounds :
      ℕ → String → ℕ → State b → Option (Result ServiceError (Unit {0}) × State b)
  unfolding evict_turn
  evict_rounds zero now max_size st = none
  evict_rounds (suc fuel) now max_size st = elim (evict_turn now max_size st).0 [
    | err e ↦ some (err e, (evict_turn now max_size st).1)
    | ok more ↦ elim more [
      | true ↦ evict_rounds fuel now max_size (evict_turn now max_size st).1
      | false ↦ some (ok tt, (evict_turn now max_size st).1)
    ]
  ]

  -- As many turns as there are files and chunks, and one more.
  unfoldable pub evict_if_needed :
      String → ℕ → State b → Option (Result ServiceError (Unit {0}) × State b)
  unfolding evict_rounds
  evict_if_needed now max_size (db, s) =
      evict_rounds (suc (length db.files + length db.chunks)) now max_size (db, s)
