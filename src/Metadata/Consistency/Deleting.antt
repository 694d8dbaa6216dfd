-- ===== src/Metadata/Consistency/Deleting.antt =====
-- The deletions of src/metadata.rs keep counts and links in step.
use hugrs.Prelude.{
  ℕ, ◌≡◌, refl, ap, String, Bool, true, false, not, List, [], ◌∷◌, pos, pos-sub, Result, ok, err,
  All, All-map, All-mono, All-select, All-both, length, ◌&&◌, str_eq, eq_iff, eq_refl, ◌==◌, find,
  any_of, select, Bool-cases, Option-cases, inl, inr, arith,
}
use hugrs.Metadata.Tables.{File, Chunk, FileChunk, Db, SqlError, refs, is_named, has_chunk}
use hugrs.Metadata.Chunks.{
  delete_chunk, delete_chunks_batch, delete_where, delete_listed, deletable, is_in, is_deletable,
  is_referenced, delete_chunk_result, delete_chunks_result,
}
use hugrs.Metadata.Deletion.{
  refs_lost, lose_refs, delete_file_by_id_tx, delete_file, delete_files_by_repo, delete_ids,
  repo_file_ids,
}
use hugrs.Metadata.Refs.{
  Owned, refs-split, KeysDistinct-select, Linked-mono, has_chunk-map, has_file-delete,
}
use hugrs.Metadata.Consistency.{IsConsistent, OnOk}

-- Deleting a file takes its links, and as many references from each chunk.
lose_refs-exact :
    (now : String) (id : ℕ) (ls : List FileChunk) (c : Chunk)
    → c.ref_count ≡ pos (refs c.sha256 ls)
    → (lose_refs now (refs_lost id c.sha256 ls) c).ref_count
      ≡ pos (
          refs
            (lose_refs now (refs_lost id c.sha256 ls) c).sha256
            (select (λ l. not (l.file_id == id)) ls))
unfolding lose_refs
lose_refs-exact now id ls c e = ground (
  arith,
  refs-split c.sha256 id ls,
  pos-sub (refs c.sha256 ls) (refs_lost id c.sha256 ls)
      (refs c.sha256 (select (λ l. not (l.file_id == id)) ls)),
)

lose_refs-sha256 : (now : String) (n : ℕ) (c : Chunk) → (lose_refs now n c).sha256 ≡ c.sha256
unfolding lose_refs
lose_refs-sha256 now n c = ground arith

Owned-delete :
    (id : ℕ) (fs : List File) (ls : List FileChunk)
    → Owned ls fs
    → Owned (select (λ l. not (l.file_id == id)) ls) (select (λ f. not (f.id == id)) fs)
Owned-delete id fs [] o = tt
Owned-delete id fs (l ∷ ls) o =
    ground (arith, has_file-delete id l.file_id fs, Owned-delete id fs ls o.1)

-- Deleting a file with its links keeps a consistent database consistent.
pub delete_file_by_id_tx-IsConsistent :
    (now : String) (id : ℕ) (db : Db)
    → IsConsistent db
    → IsConsistent (delete_file_by_id_tx now id db)
unfolding delete_file_by_id_tx
delete_file_by_id_tx-IsConsistent now id db v = record {
  refs_exact = All-map _ _ (λ c. lose_refs-exact now id db.file_chunks c) db.chunks v.refs_exact;
  linked =
      Linked-mono _ db.chunks _
        (λ s.
          rw
            (has_chunk-map (λ c. lose_refs now (refs_lost id c.sha256 db.file_chunks) c) s db.chunks
              (λ c. lose_refs-sha256 now (refs_lost id c.sha256 db.file_chunks) c))
            (λ o. o))
        (All-select _ _ db.file_chunks v.linked);
  owned = Owned-delete id db.files db.file_chunks v.owned;
  keys = KeysDistinct-select _ db.file_chunks v.keys;
}

pub delete_file-IsConsistent :
    (now name source : String) (db : Db)
    → IsConsistent db
    → IsConsistent (delete_file now name source db).1
unfolding delete_file
delete_file-IsConsistent now name source db v =
    elim (Option-cases (find (is_named name source) db.files)) [
      | inl e ↦ rw (e, delete_file) v
      | inr (f, e) ↦ rw (e, delete_file) (delete_file_by_id_tx-IsConsistent now f.id db v)
    ]

delete_ids-IsConsistent :
    (now : String) (ids : List ℕ) (db : Db) → IsConsistent db → IsConsistent (delete_ids now ids db)
unfolding delete_ids
delete_ids-IsConsistent now [] db v = v
delete_ids-IsConsistent now (id ∷ ids) db v =
    delete_ids-IsConsistent now ids (delete_file_by_id_tx now id db)
      (delete_file_by_id_tx-IsConsistent now id db v)

pub delete_files_by_repo-IsConsistent :
    (now repo : String) (db : Db)
    → IsConsistent db
    → IsConsistent (delete_files_by_repo now repo db).1
unfolding delete_files_by_repo
delete_files_by_repo-IsConsistent now repo db =
    delete_ids-IsConsistent now (repo_file_ids repo db) db

-- A row names its own chunk.
named_by_self :
    (ls : List FileChunk)
    → All (λ l. any_of (λ (x : FileChunk). str_eq x.sha256 l.sha256) ls ≡ true) ls
named_by_self [] = tt
named_by_self (l ∷ ls) =
    (ground (arith, eq_refl l.sha256), All-mono (λ x h. ground arith) ls (named_by_self ls))

kept_if_named :
    (s : String) (p : Chunk → Bool) (ls : List FileChunk) (cs : List Chunk)
    → any_of (λ l. str_eq l.sha256 s) ls ≡ true
    → any_of (λ c. p c && any_of (λ (l : FileChunk). str_eq l.sha256 c.sha256) ls) cs ≡ false
    → has_chunk s cs ≡ true
    → has_chunk s (select (λ c. not (p c)) cs) ≡ true
kept_if_named s p ls [] n r h = absurd (ground arith)
kept_if_named s p ls (c ∷ cs) n r h = elim (Bool-cases (str_eq c.sha256 s)) [
  | inl same ↦
      let e : c.sha256 ≡ s = (eq_iff c.sha256 s).0 same in
      let hit = ap (λ (t : String). any_of (λ (l : FileChunk). str_eq l.sha256 t) ls) e in
      ground arith
  | inr other ↦ ground (arith, kept_if_named s p ls cs)
]

delete_where-IsConsistent :
    (p : Chunk → Bool) (db : Db) → IsConsistent db → OnOk IsConsistent (delete_where p db)
unfolding delete_where
delete_where-IsConsistent p db v = elim (Bool-cases (is_referenced p db)) [
  | inl used ↦ rw used tt
  | inr unused ↦ rw unused (record {
    refs_exact = All-select _ _ db.chunks v.refs_exact;
    linked =
        All-both (λ l n h. kept_if_named l.sha256 p db.file_chunks db.chunks n unused h)
          db.file_chunks (named_by_self db.file_chunks) v.linked;
    owned = v.owned;
    keys = v.keys;
  })
]

pub delete_chunk-IsConsistent :
    (sha256 : String) (db : Db)
    → IsConsistent db
    → OnOk (λ r. IsConsistent r.1) (delete_chunk sha256 db)
unfolding delete_chunk
delete_chunk-IsConsistent sha256 db v =
    pass (delete_where (is_deletable sha256) db)
      (delete_where-IsConsistent (is_deletable sha256) db v)
  where
    pass :
        (r : Result SqlError Db)
        → OnOk IsConsistent r
        → OnOk
            (λ x. IsConsistent x.1)
            (delete_chunk_result (length (select (is_deletable sha256) db.chunks)) r)
    pass (ok d) h = h
    pass (err e) h = tt

delete_listed-IsConsistent :
    (ds : List String) (db : Db)
    → IsConsistent db
    → OnOk (λ r. IsConsistent r.1) (delete_listed ds db)
unfolding delete_listed
delete_listed-IsConsistent [] db v = v
delete_listed-IsConsistent (d ∷ ds) db v =
    pass (delete_where (is_in (d ∷ ds)) db) (delete_where-IsConsistent (is_in (d ∷ ds)) db v)
  where
    pass :
        (r : Result SqlError Db)
        → OnOk IsConsistent r
        → OnOk (λ x. IsConsistent x.1) (delete_chunks_result (d ∷ ds) r)
    pass (ok x) h = h
    pass (err e) h = tt

-- Deleting the listed chunks that nothing counts keeps a consistent database consistent when it is
-- not refused.
pub delete_chunks_batch-IsConsistent :
    (ss : List String) (db : Db)
    → IsConsistent db
    → OnOk (λ r. IsConsistent r.1) (delete_chunks_batch ss db)
unfolding delete_chunks_batch
delete_chunks_batch-IsConsistent [] db v = v
delete_chunks_batch-IsConsistent (s ∷ ss) db v =
    delete_listed-IsConsistent (deletable (s ∷ ss) db) db v

-- A batch deletion touches the table of chunks alone.
pub delete_chunks_batch-keeps :
    (ss : List String) (db : Db)
    → OnOk
        (λ r. (r.1.file_chunks ≡ db.file_chunks) × (r.1.files ≡ db.files))
        (delete_chunks_batch ss db)
unfolding delete_chunks_batch
delete_chunks_batch-keeps [] db = (refl, refl)
delete_chunks_batch-keeps (s ∷ ss) db = listed (deletable (s ∷ ss) db)
  where
    Kept : List String × Db → Type 0
    Kept r = (r.1.file_chunks ≡ db.file_chunks) × (r.1.files ≡ db.files)

    listed : (ds : List String) → OnOk Kept (delete_listed ds db)
    listed [] = (refl, refl)
    listed (d ∷ ds) = elim (Bool-cases (is_referenced (is_in (d ∷ ds)) db)) [
      | inl used ↦ rw used tt
      | inr unused ↦ rw unused (refl, refl)
    ]
