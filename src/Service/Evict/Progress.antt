-- ===== src/Service/Evict/Progress.antt =====
-- Each turn of an eviction leaves fewer files or fewer chunks, so the loop ends.
use hugrs.Prelude.{
  ℕ, zero, suc, ◌+◌, ◌≤◌, ◌<◌, ◌≡◌, refl, String, Bool, true, false, Option, none, some, List, [],
  ◌∷◌, Result, ok, err, All, ltb, leb, length, any_of, str_eq, str_eq, arith, Bool-cases, inl, inr,
  find, Option-cases, ap, ◌∙◌,
}
use hugrs.Metadata.Tables.{File, Db, SqlError}
use hugrs.Metadata.Files.{list_repos_by_access}
use hugrs.Metadata.Chunks.{delete_chunks_batch}
use hugrs.Metadata.Stats.{get_stats, total_file_size}
use hugrs.Metadata.Deletion.{delete_files_by_repo}
use hugrs.Metadata.Consistency.{OnOk}
use hugrs.Metadata.Consistency.Deleting.{delete_chunks_batch-keeps}
use hugrs.Metadata.Shrinking.{
  Shrinks, delete_chunks_batch-Shrinks, delete_files_by_repo-length, listed_repos-present,
  listed_repos-none,
}
use hugrs.Storage.Trait.{StorageBackend}
use hugrs.Service.Gc.{
  ServiceError, GcResult, Swept, State, keys_of, tally, counted, forget, gc_execute_batch,
}
use hugrs.Service.Evict.{fits, evict_repo, after_gc, evict_turn, evict_rounds, evict_if_needed}

-- The number of rows that an eviction can still take.
abbrev pub rows : Db → ℕ
rows db = length db.files + length db.chunks

-- A chunk is counted as deleted once for each name that the metadata store deleted.
tally-length :
    (swept : List (String × ℕ)) (ss : List String) (r : GcResult)
    → (tally swept ss r).deleted_chunks ≤ r.deleted_chunks + length ss
unfolding tally
tally-length swept [] r = omega arith
tally-length swept (s ∷ ss) r = elim (Option-cases (find (λ x. str_eq x.0 s) swept)) [
  | inl missing ↦ rw (missing, tally) (omega (arith, tally-length swept ss r))
  | inr (x, found) ↦
      rw (found, tally)
        (omega (
          arith,
          tally-length swept ss (record r {
            deleted_chunks = r.deleted_chunks + 1;
            reclaimed_bytes = r.reclaimed_bytes + x.1;
          }),
        ))
]

-- What a collection that counts a deleted chunk leaves: fewer rows.
abbrev pub Collected : Db → Result ServiceError GcResult → Db → Type 0
Collected db (err e) db' = rows db' ≤ rows db
Collected db (ok r) db' = (rows db' ≤ rows db) × (0 < r.deleted_chunks → rows db' < rows db)

module _ (b : StorageBackend) where
  counted-Collected :
      (g : GcResult) (w : Swept) (x : Result SqlError (List String × Db)) (db : Db)
      → g.deleted_chunks ≡ 0
      → OnOk (Shrinks db) x
      → OnOk (λ r. (r.1.file_chunks ≡ db.file_chunks) × (r.1.files ≡ db.files)) x
      → Collected db (counted b g w x db).0 (counted b g w x db).1
  unfolding counted
  counted-Collected g w (err e) db z c k = omega arith
  counted-Collected g w (ok (deleted, db')) db z c k = (
    omega (arith, c, ap length k.1),
    λ h. omega (arith, c, ap length k.1, tally-length w.deleted_sha256s deleted g, z),
  )

  forget-Collected :
      (has_more : Bool) (r : Result String Swept) (db : Db)
      → Collected db (forget b has_more r db).0 (forget b has_more r db).1
  unfolding forget
  forget-Collected has_more (err e) db = omega arith
  forget-Collected has_more (ok w) db =
      counted-Collected _ w (delete_chunks_batch (keys_of w.deleted_sha256s) db) db refl
        (delete_chunks_batch-Shrinks (keys_of w.deleted_sha256s) db)
        (delete_chunks_batch-keeps (keys_of w.deleted_sha256s) db)

  pub gc-Collected :
      (n : ℕ) (db : Db) (s : b.Store)
      → Collected db (gc_execute_batch b n (db, s)).0 (gc_execute_batch b n (db, s)).1.0
  unfolding gc_execute_batch
  gc-Collected n db s = forget-Collected _ _ db

  Collected-le :
      (db : Db) (r : Result ServiceError GcResult) (db' : Db)
      → Collected db r db'
      → rows db' ≤ rows db
  Collected-le db (err e) db' c = c
  Collected-le db (ok g) db' c = c.0

  -- What a turn comes to: an error, fewer rows and another turn, or an end at which the files fit.
  abbrev Turned : ℕ → Db → Result ServiceError Bool → Db → Type 0
  Turned max_size db (err e) db' = Unit
  Turned max_size db (ok true) db' = rows db' < rows db
  Turned max_size db (ok false) db' = fits max_size db' ≡ true

  no_repo-fits :
      (max_size : ℕ) (db : Db) → list_repos_by_access 10 db ≡ [] → fits max_size db ≡ true
  unfolding fits get_stats
  no_repo-fits max_size db h =
      ap (λ fs. leb (total_file_size fs) max_size) (listed_repos-none 9 db h) ∙ ground arith

  evict_repo-Turned :
      (now : String) (max_size : ℕ) (victims : List String) (db : Db) (s : b.Store)
      → All (λ repo. any_of (λ (f : File). str_eq f.repo repo) db.files ≡ true) victims
      → (victims ≡ [] → fits max_size db ≡ true)
      → Turned max_size db
          (ok (evict_repo b now victims (db, s)).0)
          (evict_repo b now victims (db, s)).1.0
  unfolding evict_repo
  evict_repo-Turned now max_size [] db s a h = h refl
  evict_repo-Turned now max_size (victim ∷ others) db s a h = omega (
    arith,
    delete_files_by_repo-length now victim db a.0,
    Collected-le (delete_files_by_repo now victim db).1
        (gc_execute_batch b 32 ((delete_files_by_repo now victim db).1, s)).0
        (gc_execute_batch b 32 ((delete_files_by_repo now victim db).1, s)).1.0
        (gc-Collected 32 (delete_files_by_repo now victim db).1 s),
  )

  le-Turned :
      (max_size : ℕ) (db db' db'' : Db) (more : Bool)
      → rows db' ≤ rows db
      → Turned max_size db' (ok more) db''
      → Turned max_size db (ok more) db''
  le-Turned max_size db db' db'' true le t = omega arith
  le-Turned max_size db db' db'' false le t = t

  after_gc-Turned :
      (now : String) (max_size : ℕ) (r : Result ServiceError GcResult) (db db' : Db) (s : b.Store)
      → Collected db r db'
      → Turned max_size db
          (after_gc b now max_size r (db', s)).0
          (after_gc b now max_size r (db', s)).1.0
  unfolding after_gc
  after_gc-Turned now max_size (err e) db db' s c = tt
  after_gc-Turned now max_size (ok g) db db' s c = elim (Bool-cases (fits max_size db')) [
    | inl fit ↦ rw (fit, after_gc) fit
    | inr full ↦ elim (Bool-cases (ltb 0 g.deleted_chunks)) [
      | inl some_deleted ↦ rw (full, some_deleted, after_gc) (c.1 (ground arith))
      | inr none_deleted ↦
          rw (full, none_deleted, after_gc)
            (le-Turned max_size db db' _ _ c.0 (
              evict_repo-Turned now max_size (list_repos_by_access 10 db') db' s
                (listed_repos-present 10 db') (no_repo-fits max_size db')))
    ]
  ]

  evict_turn-Turned :
      (now : String) (max_size : ℕ) (db : Db) (s : b.Store)
      → Turned max_size db
          (evict_turn b now max_size (db, s)).0
          (evict_turn b now max_size (db, s)).1.0
  unfolding evict_turn
  evict_turn-Turned now max_size db s =
      after_gc-Turned now max_size (gc_execute_batch b 32 (db, s)).0 db _ _ (gc-Collected 32 db s)

  -- What an eviction that ends comes to.
  abbrev pub IsEvicted : ℕ → Option (Result ServiceError (Unit {0}) × State b) → Type 0
  IsEvicted max_size none = ⊥
  IsEvicted max_size (some (err e, st)) = Unit
  IsEvicted max_size (some (ok u, st)) = fits max_size st.0 ≡ true

  -- A round, where the rounds behind it come to an end.
  evict_round-IsEvicted :
      (fuel : ℕ) (now : String) (max_size : ℕ) (st : State b) (r : Result ServiceError Bool)
      → (evict_turn b now max_size st).0 ≡ r
      → Turned max_size st.0 r (evict_turn b now max_size st).1.0
      → (rows (evict_turn b now max_size st).1.0 < rows st.0
          → IsEvicted max_size (evict_rounds b fuel now max_size (evict_turn b now max_size st).1))
      → IsEvicted max_size (evict_rounds b (suc fuel) now max_size st)
  unfolding evict_rounds
  evict_round-IsEvicted fuel now max_size st (err e) eq t more = rw (eq, evict_rounds) tt
  evict_round-IsEvicted fuel now max_size st (ok true) eq t more = rw (eq, evict_rounds) (more t)
  evict_round-IsEvicted fuel now max_size st (ok false) eq t more = rw (eq, evict_rounds) t

  pub evict_rounds-IsEvicted :
      (fuel : ℕ) (now : String) (max_size : ℕ) (db : Db) (s : b.Store)
      → rows db < fuel
      → IsEvicted max_size (evict_rounds b fuel now max_size (db, s))
  unfolding evict_rounds
  evict_rounds-IsEvicted zero now max_size db s h = absurd (omega arith)
  evict_rounds-IsEvicted (suc fuel) now max_size db s h =
      evict_round-IsEvicted fuel now max_size (db, s) _ refl (evict_turn-Turned now max_size db s)
        (λ less. evict_rounds-IsEvicted fuel now max_size _ _ (omega (arith, h, less)))

  -- For any chunk store: the loop ends after at most one turn more than there are files and chunks,
  -- and where no error ended it, the files that are left are no larger together than the limit.
  pub evict_if_needed_ends :
      (now : String) (max_size : ℕ) (st : State b)
      → IsEvicted max_size (evict_if_needed b now max_size st)
  unfolding evict_if_needed
  evict_if_needed_ends now max_size (db, s) =
      evict_rounds-IsEvicted (suc (rows db)) now max_size db s (omega arith)
