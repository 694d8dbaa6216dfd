-- ===== src/Server/Admin.antt =====
-- The admin routes of src/server.rs: `require_admin`, `aggregate_files` and the control handlers over
-- the service. `control_service_status`, which only repeats the configuration, is left out.
pub mod Access
use hugrs.Prelude.{
  ℕ, ◌+◌, String, Bool, true, false, ◌&&◌, Option, none, some, List, [], ◌∷◌, ◌++◌, map, Result, ok,
  err, ltb, leb, max, str_eq, str_leb, if◌then◌else◌, select, length, chars, same_chars, is_some,
}
use hugrs.Metadata.Tables.{File, Db}
use hugrs.Metadata.Files.{list_files}
use hugrs.Metadata.Links.{get_file_downloaded_size}
use hugrs.Metadata.Stats.{Stats}
use hugrs.Metadata.Reconcile.{ReconcileChunkRefsResult, reconcile_chunk_refs}
use hugrs.Storage.Trait.{StorageBackend}
use hugrs.Service.Gc.{ServiceError, GcPreview, GcResult, State, gc_dry_run, gc_execute_batch}
use hugrs.Service.Removal.{
  DeleteResult, insert_source, of_source, is_file_of, is_of_repo, delete_file_all_sources,
  delete_repo_all_sources, stats,
}
use hugrs.Server.Response.{AppError, anyhow, unauthorized, not_found}

-- The value of the `authorization` header; none where it is missing or not visible ASCII.
unfoldable pub require_admin : String → Option (List ℕ) → Result AppError (Unit {0})
require_admin admin_token none = err unauthorized
require_admin admin_token (some value) =
    if same_chars value (chars "Bearer " ++ chars admin_token) then ok tt else err unauthorized

-- The order of BTreeMap on pairs of a repo and a name.
abbrev pub Key : Type 0
Key = String × String

abbrev pub same_key : Key → Key → Bool
same_key (a, b) (c, d) = str_eq a c && str_eq b d

abbrev pub key_leb : Key → Key → Bool
key_leb (a, b) (c, d) = if str_eq a c then str_leb b d else str_leb a c

-- `grouped.entry(key).or_default().push(file)`
unfoldable pub push_group : Key → File → List (Key × List File) → List (Key × List File)
push_group k f [] = (k, f ∷ []) ∷ []
push_group k f ((j, fs) ∷ gs) =
    let rest = push_group k f gs in
    if same_key k j
    then (j, fs ++ f ∷ []) ∷ gs
    else if key_leb k j
    then (k, f ∷ []) ∷ (j, fs) ∷ gs
    else (j, fs) ∷ rest

unfoldable pub group_files :
    (File → Key) → List File → List (Key × List File) → List (Key × List File)
unfolding push_group
group_files key [] gs = gs
group_files key (f ∷ fs) gs = group_files key fs (push_group (key f) f gs)

pub record FileListItem : Type 0 where
  pub repo : String
  pub file : String
  pub sources : List String
  pub size : ℕ
  pub downloaded_size : ℕ
  pub complete : Bool
  pub content_type : Option String
  pub last_accessed : String

abbrev pub max_size_of : List ℕ → ℕ
max_size_of [] = 0
max_size_of (n ∷ ns) = max n (max_size_of ns)

abbrev pub later : String → String → String
later s t = if str_leb s t then t else s

abbrev pub last_of : List File → String
last_of [] = ""
last_of (f ∷ fs) = later f.last_accessed (last_of fs)

abbrev pub sizes_of : Db → List File → List ℕ
sizes_of db = map (λ f. get_file_downloaded_size f.id db)

-- The size and the type are those of the first entry.
abbrev pub size_of_first : List File → ℕ
size_of_first [] = 0
size_of_first (f ∷ fs) = f.total_size

abbrev pub type_of_first : List File → Option String
type_of_first [] = none
type_of_first (f ∷ fs) = f.content_type

unfoldable pub item_of : Db → Key × List File → FileListItem
unfolding get_file_downloaded_size
item_of db ((repo, file), entries) = record {
  repo = repo;
  file = file;
  sources = map (λ (f : File). f.source) entries;
  size = size_of_first entries;
  downloaded_size = max_size_of (sizes_of db entries);
  complete = leb (size_of_first entries) (max_size_of (sizes_of db entries));
  content_type = type_of_first entries;
  last_accessed = last_of entries;
}

unfoldable pub aggregate_files : Db → List File → List FileListItem
unfolding group_files item_of
aggregate_files db files = map (item_of db) (group_files (λ f. (f.repo, f.name)) files [])

abbrev pub sum_of : (FileListItem → ℕ) → List FileListItem → ℕ
sum_of g [] = 0
sum_of g (i ∷ is) = g i + sum_of g is

unfoldable pub sources_of : List File → List String
unfolding insert_source
sources_of [] = []
sources_of (f ∷ fs) = insert_source f.source (sources_of fs)

pub record RepoListItem : Type 0 where
  pub repo : String
  pub sources : List String
  pub files : ℕ
  pub logical_bytes : ℕ
  pub downloaded_bytes : ℕ
  pub last_accessed : String

unfoldable pub repo_item : Db → Key × List File → RepoListItem
unfolding aggregate_files sources_of
repo_item db ((repo, name), entries) =
    let items = aggregate_files db entries in
    record {
      repo = repo;
      sources = sources_of entries;
      files = length items;
      logical_bytes = sum_of (λ i. i.size) items;
      downloaded_bytes = sum_of (λ i. i.downloaded_size) items;
      last_accessed = last_of entries;
    }

pub record DeleteResponse : Type 0 where
  pub deleted : Bool
  pub deleted_files : ℕ
  pub sources : List String

abbrev pub delete_response : DeleteResult → DeleteResponse
delete_response r = record {
  deleted = ltb 0 r.deleted_files;
  deleted_files = r.deleted_files;
  sources = r.sources;
}

-- The requests behind `require_admin`, with what they carry.
pub data AdminRequest : Type 0 where
  service_stats : AdminRequest
  service_gc : Bool → Option ℕ → AdminRequest
  service_reconcile : Bool → AdminRequest
  repos_list : Option String → AdminRequest
  repo_show repo_delete : String → Option String → AdminRequest
  files_list : Option String → AdminRequest
  file_show file_delete : String → String → Option String → AdminRequest

pub data AdminResponse : Type 0 where
  stats_are : Stats → AdminResponse
  gc_preview : GcPreview → AdminResponse
  gc_result : GcResult → AdminResponse
  reconciled : ReconcileChunkRefsResult → AdminResponse
  repos : List RepoListItem → AdminResponse
  repo_shown : RepoListItem → List FileListItem → AdminResponse
  files : List FileListItem → AdminResponse
  file_shown : FileListItem → AdminResponse
  deletion : DeleteResponse → AdminResponse

abbrev pub gc_response : Result ServiceError GcResult → Result AppError AdminResponse
gc_response (err e) = err (anyhow "collection failed")
gc_response (ok r) = ok (gc_result r)

abbrev pub batch_or : Option ℕ → ℕ
batch_or none = 32
batch_or (some n) = n

-- 404 where nothing matches.
unfoldable pub show_repo : String → Db → List File → Result AppError AdminResponse
unfolding repo_item aggregate_files
show_repo repo db [] = err (not_found "repo not found")
show_repo repo db (f ∷ fs) =
    ok (repo_shown (repo_item db ((repo, ""), f ∷ fs)) (aggregate_files db (f ∷ fs)))

-- Here the time of the last access is that of the first entry.
unfoldable pub show_file : String → String → Db → List File → Result AppError AdminResponse
unfolding item_of
show_file repo file db [] = err (not_found "file not found")
show_file repo file db (f ∷ fs) =
    ok (file_shown (record (item_of db ((repo, file), f ∷ fs)) { last_accessed = f.last_accessed }))

module _ (b : StorageBackend) (now : String) (fetched served : ℕ) where
  -- A handler behind the check of the token.
  unfoldable pub handle : AdminRequest → State b → Result AppError AdminResponse × State b
  unfolding show_repo show_file aggregate_files repo_item gc_dry_run gc_execute_batch stats
      list_files reconcile_chunk_refs delete_repo_all_sources delete_file_all_sources group_files
  handle service_stats (db, s) = (ok (stats_are (stats fetched served db)), (db, s))
  handle (service_gc true batch) (db, s) = (ok (gc_preview (gc_dry_run db)), (db, s))
  handle (service_gc false batch) st =
      let (r, st') = gc_execute_batch b (batch_or batch) st in (gc_response r, st')
  handle (service_reconcile dry) (db, s) =
      let (r, db') = reconcile_chunk_refs now dry db in (ok (reconciled r), (db', s))
  handle (repos_list source) (db, s) = (
    ok (
        repos (
          map (repo_item db)
            (group_files (λ f. (f.repo, "")) (select (of_source source) (list_files db)) []))),
    (db, s),
  )
  handle (repo_show repo source) (db, s) =
      (show_repo repo db (select (is_of_repo repo source) (list_files db)), (db, s))
  handle (repo_delete repo source) (db, s) =
      let (r, db') = delete_repo_all_sources now repo source db in
      (ok (deletion (delete_response r)), (db', s))
  handle (files_list source) (db, s) =
      (ok (files (aggregate_files db (select (of_source source) (list_files db)))), (db, s))
  handle (file_show repo file source) (db, s) =
      (show_file repo file db (select (is_file_of repo file source) (list_files db)), (db, s))
  handle (file_delete repo file source) (db, s) =
      let (r, db') = delete_file_all_sources now repo file source db in
      (ok (deletion (delete_response r)), (db', s))

  abbrev pub admitted :
      Result AppError (Unit {0}) → AdminRequest → State b → Result AppError AdminResponse × State b
  admitted (err e) q st = (err e, st)
  admitted (ok u) q st = handle q st

  -- Every control handler begins with `require_admin(&headers, &state)?`.
  unfoldable pub control :
      String → Option (List ℕ) → AdminRequest → State b → Result AppError AdminResponse × State b
  unfolding handle require_admin
  control admin_token authorization q st = admitted (require_admin admin_token authorization) q st
