-- ===== src/Service/Removal.antt =====
-- `get_complete_file`, `delete_file_all_sources`, `delete_repo_all_sources` and `stats` of
-- src/service.rs.
pub mod Exactness
use hugrs.Prelude.{
  ℕ, suc, String, Bool, true, false, ◌&&◌, Option, none, some, List, [], ◌∷◌, str_eq, str_leb, leb,
  if◌then◌else◌, is_some,
}
use hugrs.Metadata.Tables.{File, Db}
use hugrs.Metadata.Files.{get_file_by_name, list_files}
use hugrs.Metadata.Links.{get_file_downloaded_size}
use hugrs.Metadata.Deletion.{delete_file}
use hugrs.Metadata.Stats.{Stats, get_stats}

abbrev pub if_complete : Db → Option File → Option File
if_complete db none = none
if_complete db (some file) =
    if leb file.total_size (get_file_downloaded_size file.id db) then some file else none

unfoldable pub get_complete_file : String → String → Db → Option File
unfolding get_file_by_name get_file_downloaded_size
get_complete_file name source db = if_complete db (get_file_by_name name source db)

unfoldable pub is_file_complete : String → String → Db → Bool
unfolding get_complete_file
is_file_complete name source db = is_some (get_complete_file name source db)

pub record DeleteResult : Type 0 where
  pub deleted_files : ℕ
  pub sources : List String

-- BTreeSet::insert: in order, and once.
unfoldable pub insert_source : String → List String → List String
insert_source s [] = s ∷ []
insert_source s (t ∷ ts) =
    let rest = insert_source s ts in
    if str_eq s t then t ∷ ts else if str_leb s t then s ∷ t ∷ ts else t ∷ rest

abbrev pub counted_file : File → Bool → DeleteResult → DeleteResult
counted_file f false r = r
counted_file f true r = record {
  deleted_files = suc r.deleted_files;
  sources = insert_source f.source r.sources;
}

-- One entry of the list: passed over, or deleted.
unfoldable pub delete_entry : (File → Bool) → String → File → DeleteResult × Db → DeleteResult × Db
unfolding delete_file insert_source
delete_entry wanted now f (r, db) =
    if wanted f
    then (
      counted_file f (delete_file now f.name f.source db).0 r,
      (delete_file now f.name f.source db).1,
    )
    else (r, db)

unfoldable pub delete_entries :
    (File → Bool) → String → List File → DeleteResult × Db → DeleteResult × Db
unfolding delete_entry
delete_entries wanted now [] st = st
delete_entries wanted now (f ∷ fs) st = delete_entries wanted now fs (delete_entry wanted now f st)

-- The filter on the source, where one is given.
abbrev pub of_source : Option String → File → Bool
of_source none f = true
of_source (some s) f = str_eq s f.source

abbrev pub is_file_of : String → String → Option String → File → Bool
is_file_of repo file source f = str_eq f.repo repo && str_eq f.name file && of_source source f

abbrev pub is_of_repo : String → Option String → File → Bool
is_of_repo repo source f = str_eq f.repo repo && of_source source f

abbrev pub nothing_deleted : DeleteResult
nothing_deleted = record { deleted_files = 0; sources = [] }

unfoldable pub delete_file_all_sources :
    String → String → String → Option String → Db → DeleteResult × Db
unfolding delete_entries list_files
delete_file_all_sources now repo file source db =
    delete_entries (is_file_of repo file source) now (list_files db) (nothing_deleted, db)

unfoldable pub delete_repo_all_sources : String → String → Option String → Db → DeleteResult × Db
unfolding delete_entries list_files
delete_repo_all_sources now repo source db =
    delete_entries (is_of_repo repo source) now (list_files db) (nothing_deleted, db)

-- The counters of the service stand beside those of the tables.
unfoldable pub stats : ℕ → ℕ → Db → Stats
unfolding get_stats
stats fetched served db = record (get_stats db) { fetched_bytes = fetched; served_bytes = served }
