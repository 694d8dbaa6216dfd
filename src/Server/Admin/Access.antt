-- ===== src/Server/Admin/Access.antt =====
-- Who reaches the admin routes, and what they keep.
use hugrs.Prelude.{
  ℕ, ◌≡◌, ◌≢◌, refl, ap, ◌∙◌, String, Bool, true, false, Option, none, some, List, [], ◌∷◌, ◌++◌,
  Result, ok, err, if◌then◌else◌, chars, same_chars, ==_iff, arith, Bool-cases, inl, inr,
}
use hugrs.Metadata.Tables.{File, Db}
use hugrs.Metadata.Files.{list_files}
use hugrs.Metadata.Consistency.{IsConsistent}
use hugrs.Metadata.Consistency.Deleting.{delete_file-IsConsistent}
use hugrs.Metadata.Consistency.Repair.{reconcile_chunk_refs-IsConsistent}
use hugrs.Storage.Trait.{StorageBackend, IsSeparate}
use hugrs.Service.Gc.{State}
use hugrs.Service.Gc.Safety.{gc-Kept}
use hugrs.Service.Removal.{
  DeleteResult, delete_entry, delete_entries, delete_repo_all_sources, delete_file_all_sources,
}
use hugrs.Server.Response.{AppError, unauthorized}
use hugrs.Server.Admin.{
  require_admin, AdminRequest, service_stats, service_gc, service_reconcile, repos_list, repo_show,
  repo_delete, files_list, file_show, file_delete, AdminResponse, handle, admitted, control,
}

just_equal : (a b : List ℕ) → ◌≡◌ {A = Option (List ℕ)} (some a) (some b) → a ≡ b
just_equal a b h = cc

same_chars_sound : (xs ys : List ℕ) → same_chars xs ys ≡ true → xs ≡ ys
same_chars_sound [] [] h = refl
same_chars_sound (x ∷ xs) (y ∷ ys) h =
    ap (λ z. z ∷ xs) ((==_iff x y).0 (ground arith))
    ∙ ap (λ zs. y ∷ zs) (same_chars_sound xs ys (ground arith))
same_chars_sound [] (y ∷ ys) h = absurd (ground arith)
same_chars_sound (x ∷ xs) [] h = absurd (ground arith)

same_chars_complete : (xs : List ℕ) → same_chars xs xs ≡ true
same_chars_complete [] = refl
same_chars_complete (x ∷ xs) = ground (arith, same_chars_complete xs)

delete_entry-IsConsistent :
    (wanted : File → Bool) (now : String) (x : File) (r : DeleteResult) (db : Db)
    → IsConsistent db
    → IsConsistent (delete_entry wanted now x (r, db)).1
unfolding delete_entry
delete_entry-IsConsistent wanted now x r db v = elim (Bool-cases (wanted x)) [
  | inl goes ↦ rw (goes, delete_entry) (delete_file-IsConsistent now x.name x.source db v)
  | inr stays ↦ rw (stays, delete_entry) v
]

delete_entries-IsConsistent :
    (wanted : File → Bool) (now : String) (xs : List File) (r : DeleteResult) (db : Db)
    → IsConsistent db
    → IsConsistent (delete_entries wanted now xs (r, db)).1
unfolding delete_entries
delete_entries-IsConsistent wanted now [] r db v = v
delete_entries-IsConsistent wanted now (x ∷ xs) r db v =
    delete_entries-IsConsistent wanted now xs (delete_entry wanted now x (r, db)).0
      (delete_entry wanted now x (r, db)).1 (delete_entry-IsConsistent wanted now x r db v)

module _ (b : StorageBackend) (now : String) (fetched served : ℕ) where
  -- A request with another token, or with none, is answered 401 and changes nothing; one with the
  -- token reaches the handler.
  pub control_admits :
      (admin_token : String) (authorization : Option (List ℕ)) (q : AdminRequest) (st : State b)
      → (authorization ≡ some (chars "Bearer " ++ chars admin_token)
          → control b now fetched served admin_token authorization q st
            ≡ handle b now fetched served q st)
        × (authorization ≢ some (chars "Bearer " ++ chars admin_token)
            → control b now fetched served admin_token authorization q st ≡ (err unauthorized, st))
  unfolding control require_admin
  control_admits admin_token none q st = (λ e. absurd (ground arith), λ n. refl)
  control_admits admin_token (some value) q st = (
    λ e.
        ap gate
          (ap (λ v. same_chars v token) (just_equal value token e) ∙ same_chars_complete token),
    λ n. elim (Bool-cases (same_chars value token)) [
      | inl same ↦ absurd (n (ap some (same_chars_sound value token same)))
      | inr other ↦ ap gate other
    ],
  )
    where
      token : List ℕ
      token = chars "Bearer " ++ chars admin_token

      gate : Bool → Result AppError AdminResponse × State b
      gate t = admitted b now fetched served (if t then ok tt else err unauthorized) q st

  handle-IsConsistent :
      (q : AdminRequest) (db : Db) (s : b.Store)
      → IsSeparate b
      → IsConsistent db
      → IsConsistent (handle b now fetched served q (db, s)).1.0
  unfolding handle delete_repo_all_sources delete_file_all_sources
  handle-IsConsistent (service_gc false batch) db s sep v = (gc-Kept b sep _ db s v).0
  handle-IsConsistent (service_reconcile dry) db s sep v =
      reconcile_chunk_refs-IsConsistent now dry db v
  handle-IsConsistent (repo_delete repo source) db s sep v =
      delete_entries-IsConsistent _ now (list_files db) _ db v
  handle-IsConsistent (file_delete repo file source) db s sep v =
      delete_entries-IsConsistent _ now (list_files db) _ db v
  handle-IsConsistent (service_gc true batch) db s sep v = v
  handle-IsConsistent service_stats db s sep v = v
  handle-IsConsistent (repos_list source) db s sep v = v
  handle-IsConsistent (repo_show repo source) db s sep v = v
  handle-IsConsistent (files_list source) db s sep v = v
  handle-IsConsistent (file_show repo file source) db s sep v = v

  -- For a chunk store that keeps names apart: every admin request leaves a consistent database
  -- consistent, whatever token comes with it.
  pub control-IsConsistent :
      (admin_token : String) (authorization : Option (List ℕ)) (q : AdminRequest) (st : State b)
      → IsSeparate b
      → IsConsistent st.0
      → IsConsistent (control b now fetched served admin_token authorization q st).1.0
  unfolding control
  control-IsConsistent admin_token authorization q (db, s) sep v =
      gate (require_admin admin_token authorization)
    where
      gate :
          (r : Result AppError (Unit {0}))
          → IsConsistent (admitted b now fetched served r q (db, s)).1.0
      gate (err e) = v
      gate (ok u) = handle-IsConsistent q db s sep v
