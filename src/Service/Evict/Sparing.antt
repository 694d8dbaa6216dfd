-- ===== src/Service/Evict/Sparing.antt =====
-- What an eviction leaves alone: the data of every chunk that is still linked.
use hugrs.Prelude.{
  ℕ, zero, suc, ◌+◌, ◌≤◌, ◌<◌, ◌≡◌, refl, String, Bool, true, false, not, Option, none, some, List,
  [], ◌∷◌, Result, ok, err, ltb, length, select, ◌==◌, arith, Bool-cases, inl, inr, ap, ◌∙◌,
}
use hugrs.Metadata.Tables.{FileChunk, Db, refs}
use hugrs.Metadata.Files.{list_repos_by_access}
use hugrs.Metadata.Deletion.{delete_file_by_id_tx, delete_ids, delete_files_by_repo, repo_file_ids}
use hugrs.Metadata.Consistency.{IsConsistent}
use hugrs.Metadata.Consistency.Deleting.{delete_files_by_repo-IsConsistent}
use hugrs.Storage.Trait.{StorageBackend, IsSeparate}
use hugrs.Service.Gc.{ServiceError, GcResult, State, gc_execute_batch}
use hugrs.Service.Gc.Safety.{gc-Kept, gc_keeps_linked}
use hugrs.Service.Evict.{fits, evict_repo, after_gc, evict_turn, evict_rounds, evict_if_needed}

refs-select-le :
    (j : String) (p : FileChunk → Bool) (ls : List FileChunk) → refs j (select p ls) ≤ refs j ls
unfolding refs
refs-select-le j p [] = omega arith
refs-select-le j p (l ∷ ls) = ground (arith, refs-select-le j p ls)

refs-delete_ids :
    (now j : String) (ids : List ℕ) (db : Db)
    → refs j (delete_ids now ids db).file_chunks ≤ refs j db.file_chunks
unfolding delete_ids delete_file_by_id_tx
refs-delete_ids now j [] db = omega arith
refs-delete_ids now j (id ∷ ids) db = omega (
  arith,
  refs-delete_ids now j ids (delete_file_by_id_tx now id db),
  refs-select-le j (λ l. not (l.file_id == id)) db.file_chunks,
)

module _ (b : StorageBackend) (separate : IsSeparate b) (j : String) where
  -- From one state to a later one: the database stays consistent, the chunk gains no link, and its
  -- data stays as long as it has one.
  pub record Spares (st st' : State b) : Type 0 where
    pub consistent : IsConsistent st'.0
    pub fewer : refs j st'.0.file_chunks ≤ refs j st.0.file_chunks
    pub kept : 0 < refs j st'.0.file_chunks → b.get j st'.1 ≡ b.get j st.1

  Spares-refl : (st : State b) → IsConsistent st.0 → Spares st st
  Spares-refl st v = record { consistent = v; fewer = omega arith; kept = λ h. refl }

  Spares-trans : (st st' st'' : State b) → Spares st st' → Spares st' st'' → Spares st st''
  Spares-trans st st' st'' x y = record {
    consistent = y.consistent;
    fewer = omega (arith, x.fewer, y.fewer);
    kept = λ h. y.kept h ∙ x.kept (omega (arith, h, y.fewer));
  }

  gc-Spares :
      (n : ℕ) (db : Db) (s : b.Store)
      → IsConsistent db
      → Spares (db, s) (gc_execute_batch b n (db, s)).1
  gc-Spares n db s v =
      let k = gc-Kept b separate n db s v in
      record {
        consistent = k.0;
        fewer = omega (arith, ap (refs j) k.1);
        kept = λ h. (gc_keeps_linked b separate n db s j v (omega (arith, h, ap (refs j) k.1))).0;
      }

  evict_repo-Spares :
      (now : String) (victims : List String) (db : Db) (s : b.Store)
      → IsConsistent db
      → Spares (db, s) (evict_repo b now victims (db, s)).1
  unfolding evict_repo delete_files_by_repo
  evict_repo-Spares now [] db s v = Spares-refl (db, s) v
  evict_repo-Spares now (victim ∷ others) db s v =
      Spares-trans (db, s) ((delete_files_by_repo now victim db).1, s) _
        (record {
          consistent = after;
          fewer = refs-delete_ids now j (repo_file_ids victim db) db;
          kept = λ h. refl;
        })
        (gc-Spares 32 (delete_files_by_repo now victim db).1 s after)
    where
      after : IsConsistent (delete_files_by_repo now victim db).1
      after = delete_files_by_repo-IsConsistent now victim db v

  after_gc-Spares :
      (now : String) (max_size : ℕ) (r : Result ServiceError GcResult) (db : Db) (s : b.Store)
      → IsConsistent db
      → Spares (db, s) (after_gc b now max_size r (db, s)).1
  unfolding after_gc
  after_gc-Spares now max_size (err e) db s v = Spares-refl (db, s) v
  after_gc-Spares now max_size (ok g) db s v = elim (Bool-cases (fits max_size db)) [
    | inl fit ↦ rw (fit, after_gc) (Spares-refl (db, s) v)
    | inr full ↦ elim (Bool-cases (ltb 0 g.deleted_chunks)) [
      | inl progress ↦ rw (full, progress, after_gc) (Spares-refl (db, s) v)
      | inr stuck ↦
          rw (full, stuck, after_gc) (evict_repo-Spares now (list_repos_by_access 10 db) db s v)
    ]
  ]

  evict_turn-Spares :
      (now : String) (max_size : ℕ) (st : State b)
      → IsConsistent st.0
      → Spares st (evict_turn b now max_size st).1
  unfolding evict_turn
  evict_turn-Spares now max_size (db, s) v =
      let first = gc-Spares 32 db s v in
      Spares-trans (db, s) (gc_execute_batch b 32 (db, s)).1 _ first
        (after_gc-Spares now max_size _ _ _ first.consistent)

  abbrev pub Spared : State b → Option (Result ServiceError (Unit {0}) × State b) → Type 0
  Spared st none = Unit
  Spared st (some (r, st')) = Spares st st'

  Spared-trans :
      (st st' : State b) (o : Option (Result ServiceError (Unit {0}) × State b))
      → Spares st st'
      → Spared st' o
      → Spared st o
  Spared-trans st st' none x y = tt
  Spared-trans st st' (some (r, st'')) x y = Spares-trans st st' st'' x y

  evict_round-Spared :
      (fuel : ℕ) (now : String) (max_size : ℕ) (st : State b) (r : Result ServiceError Bool)
      → (evict_turn b now max_size st).0 ≡ r
      → Spares st (evict_turn b now max_size st).1
      → Spared
          (evict_turn b now max_size st).1
          (evict_rounds b fuel now max_size (evict_turn b now max_size st).1)
      → Spared st (evict_rounds b (suc fuel) now max_size st)
  unfolding evict_rounds
  evict_round-Spared fuel now max_size st (err e) eq x more = rw (eq, evict_rounds) x
  evict_round-Spared fuel now max_size st (ok true) eq x more =
      rw (eq, evict_rounds) (Spared-trans st _ _ x more)
  evict_round-Spared fuel now max_size st (ok false) eq x more = rw (eq, evict_rounds) x

  evict_rounds-Spared :
      (fuel : ℕ) (now : String) (max_size : ℕ) (st : State b)
      → IsConsistent st.0
      → Spared st (evict_rounds b fuel now max_size st)
  unfolding evict_rounds
  evict_rounds-Spared zero now max_size st v = tt
  evict_rounds-Spared (suc fuel) now max_size st v =
      let x = evict_turn-Spares now max_size st v in
      evict_round-Spared fuel now max_size st _ refl x
        (evict_rounds-Spared fuel now max_size _ x.consistent)

  -- For a chunk store that keeps names apart and a consistent database: an eviction, also one that an
  -- error ends, leaves the database consistent, and the data of a chunk as it was if the chunk still
  -- has a link afterwards.
  pub evict_if_needed-Spared :
      (now : String) (max_size : ℕ) (st : State b)
      → IsConsistent st.0
      → Spared st (evict_if_needed b now max_size st)
  unfolding evict_if_needed
  evict_if_needed-Spared now max_size (db, s) v =
      evict_rounds-Spared (suc (length db.files + length db.chunks)) now max_size (db, s) v
