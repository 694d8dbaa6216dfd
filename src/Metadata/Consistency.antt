-- ===== src/Metadata/Consistency.antt =====
-- What ties the three tables together: counts agree with links, and links with chunks and files.
-- Every statement of the metadata store keeps it.
pub mod Linking
pub mod Deleting
pub mod Repair
pub mod History
use hugrs.Prelude.{
  ℕ, zero, suc, ◌+◌, ◌≡◌, ◌≢◌, refl, sym, ap, String, Bool, true, false, not, Option, none, some,
  List, [], ◌∷◌, ◌++◌, map, ℤ, pos, negsuc, ◌+ℤ◌, ◌-ℤ◌, max_zero, pos-sub, pos-add, Result, ok, err,
  All, All-map, All-append, All-mono, All-select, All-of, All-both, eqb→≡, length, ◌&&◌, str_eq,
  eq_iff, eq_refl, ◌==◌, ==_iff, if◌then◌else◌, find, any_of, select, Bool-cases, Option-cases, inl,
  inr, arith,
}
use hugrs.Metadata.Tables.{
  File, Chunk, FileChunk, Db, SqlError, empty, refs, is_at, is_named, has_chunk, has_file,
}
use hugrs.Metadata.Files.{Headers, add_file, set_file_headers, touch_repo}
use hugrs.Metadata.Chunks.{
  ensure_chunk, mark_chunk_orphaned, clear_chunk_orphaned, delete_chunk, delete_chunks_batch,
  delete_where, delete_listed, deletable, is_in, is_deletable, is_referenced, delete_chunk_result,
  delete_chunks_result,
}
use hugrs.Metadata.Links.{
  add_ref, drop_ref, link_file_chunk, is_chunk_linked, ensure_chunk_and_link, unlink_old,
  replace_link, relink, relink_current, keys_exist,
}
use hugrs.Metadata.Deletion.{
  refs_lost, lose_refs, delete_file_by_id_tx, delete_file, delete_files_by_repo, delete_ids,
  repo_file_ids,
}
use hugrs.Metadata.Reconcile.{reconcile_chunk_refs, repair_row}
use hugrs.Metadata.Refs.{
  Linked, Owned, KeysDistinct, counts_at, refs-append, refs-split, refs_of_missing, refs_without,
  KeysDistinct-select, KeysDistinct-append, any_of-removed, Linked-mono, has_chunk-map,
  has_chunk-append, has_chunk-grow, has_file-grow, has_file-map, has_file-delete,
}

-- The count of each chunk is the number of rows that link it.
abbrev pub RefsExact : List FileChunk → List Chunk → Type 0
RefsExact ls cs = All (λ c. c.ref_count ≡ pos (refs c.sha256 ls)) cs

pub record IsConsistent (db : Db) : Type 0 where
  pub refs_exact : RefsExact db.file_chunks db.chunks
  pub linked : Linked db.file_chunks db.chunks
  pub owned : Owned db.file_chunks db.files
  pub keys : KeysDistinct db.file_chunks

pub IsConsistent-empty : IsConsistent empty
IsConsistent-empty = record { refs_exact = tt; linked = tt; owned = tt; keys = tt }

-- What a statement gives when no constraint refuses it.
abbrev pub OnOk {ℓ} : {A : Type 0} → (A → Type ℓ) → Result SqlError A → Type ℓ
OnOk P (ok a) = P a
OnOk P (err e) = Unit

pub add_file-IsConsistent :
    (now name repo : String) (size : ℕ) (source : String) (db : Db)
    → IsConsistent db
    → OnOk (λ r. IsConsistent r.1) (add_file now name repo size source db)
unfolding add_file
add_file-IsConsistent now name repo size source db v =
    elim (Bool-cases (any_of (is_named name source) db.files)) [
      | inl taken ↦ rw taken tt
      | inr free ↦ rw free (record {
        refs_exact = v.refs_exact;
        linked = v.linked;
        owned = All-mono (λ l. has_file-grow l.file_id db.files _) db.file_chunks v.owned;
        keys = v.keys;
      })
    ]

pub files-map-IsConsistent :
    (g : File → File) (db : Db)
    → ((f : File) → (g f).id ≡ f.id)
    → IsConsistent db
    → IsConsistent (record db { files = map g db.files })
files-map-IsConsistent g db h v = record {
  refs_exact = v.refs_exact;
  linked = v.linked;
  owned = All-mono (λ l. rw (has_file-map g l.file_id db.files h) (λ o. o)) db.file_chunks v.owned;
  keys = v.keys;
}

pub set_file_headers-IsConsistent :
    (name source : String) (h : Headers) (db : Db)
    → IsConsistent db
    → IsConsistent (set_file_headers name source h db)
unfolding set_file_headers
set_file_headers-IsConsistent name source h db = files-map-IsConsistent _ db (λ f. ground arith)

pub touch_repo-IsConsistent :
    (now repo : String) (db : Db) → IsConsistent db → IsConsistent (touch_repo now repo db)
unfolding touch_repo
touch_repo-IsConsistent now repo db = files-map-IsConsistent _ db (λ f. ground arith)

-- A change to chunks that keeps keys and counts.
pub chunks-map-IsConsistent :
    (g : Chunk → Chunk) (db : Db)
    → ((c : Chunk) → ((g c).sha256 ≡ c.sha256) × ((g c).ref_count ≡ c.ref_count))
    → IsConsistent db
    → IsConsistent (record db { chunks = map g db.chunks })
chunks-map-IsConsistent g db h v = record {
  refs_exact = All-map _ g (λ c e. cc (e, (h c).0, (h c).1)) db.chunks v.refs_exact;
  linked =
      Linked-mono db.file_chunks db.chunks _
        (λ s. rw (has_chunk-map g s db.chunks (λ c. (h c).0)) (λ o. o)) v.linked;
  owned = v.owned;
  keys = v.keys;
}

pub mark_chunk_orphaned-IsConsistent :
    (now sha256 : String) (db : Db)
    → IsConsistent db
    → IsConsistent (mark_chunk_orphaned now sha256 db)
unfolding mark_chunk_orphaned
mark_chunk_orphaned-IsConsistent now sha256 db = chunks-map-IsConsistent _ db (λ c. ground arith)

pub clear_chunk_orphaned-IsConsistent :
    (sha256 : String) (db : Db) → IsConsistent db → IsConsistent (clear_chunk_orphaned sha256 db)
unfolding clear_chunk_orphaned
clear_chunk_orphaned-IsConsistent sha256 db = chunks-map-IsConsistent _ db (λ c. ground arith)

-- A new chunk has no link, since links name chunks that are there.
pub ensure_chunk-IsConsistent :
    (now sha256 backend path : String) (size compressed : ℕ) (db : Db)
    → IsConsistent db
    → IsConsistent (ensure_chunk now sha256 backend path size compressed db)
unfolding ensure_chunk
ensure_chunk-IsConsistent now sha256 backend path size compressed db v =
    elim (Bool-cases (has_chunk sha256 db.chunks)) [
      | inl there ↦ rw there v
      | inr missing ↦ rw missing (record {
        refs_exact =
            All-append _ db.chunks _ v.refs_exact
              (ap pos (sym (refs_of_missing sha256 db.file_chunks db.chunks missing v.linked)), tt);
        linked =
            Linked-mono db.file_chunks db.chunks _ (λ s. has_chunk-grow s db.chunks _) v.linked;
        owned = v.owned;
        keys = v.keys;
      })
    ]
