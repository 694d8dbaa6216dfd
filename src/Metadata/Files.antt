-- ===== src/Metadata/Files.antt =====
-- The statements of src/metadata.rs on the table `files`. The argument `now` is the text that
-- `datetime('now')` gives at the statement.
use hugrs.Prelude.{
  ℕ, suc, String, Bool, ◌||◌, Option, none, List, [], ◌∷◌, ◌++◌, map, ℤ, Result, ok, err, str_eq,
  str_leb, is_none, if◌then◌else◌, find, any_of, select, sort_by, take,
}
use hugrs.Metadata.Tables.{File, Db, SqlError, unique_failed, is_named}

-- The file that `add_file` returns has empty times; the row has those of the insertion.
unfoldable pub new_file : ℕ → String → String → String → ℕ → String → File
new_file id now name repo total_size source = record {
  id = id;
  name = name;
  repo = repo;
  total_size = total_size;
  created_at = now;
  last_accessed = now;
  source = source;
  etag = none;
  x_repo_commit = none;
  x_linked_size = none;
  x_linked_etag = none;
  content_type = none;
}

-- INSERT INTO files; UNIQUE(name, source) refuses a second row.
unfoldable pub add_file : String → String → String → ℕ → String → Db → Result SqlError (File × Db)
unfolding new_file
add_file now name repo total_size source db =
    if any_of (is_named name source) db.files
    then err unique_failed
    else ok (
      new_file (suc db.last_file_id) "" name repo total_size source,
      record db {
        files = db.files ++ new_file (suc db.last_file_id) now name repo total_size source ∷ [];
        last_file_id = suc db.last_file_id;
      },
    )

unfoldable pub get_file_by_name : String → String → Db → Option File
get_file_by_name name source db = find (is_named name source) db.files

-- The five columns that `set_file_headers` writes.
pub record Headers : Type 0 where
  pub etag : Option String
  pub x_repo_commit : Option String
  pub x_linked_size : Option ℤ
  pub x_linked_etag : Option String
  pub content_type : Option String

unfoldable pub with_headers : Headers → File → File
with_headers h f = record f {
  etag = h.etag;
  x_repo_commit = h.x_repo_commit;
  x_linked_size = h.x_linked_size;
  x_linked_etag = h.x_linked_etag;
  content_type = h.content_type;
}

unfoldable pub set_file_headers : String → String → Headers → Db → Db
unfolding with_headers
set_file_headers name source h db = record db {
  files = map (λ f. if is_named name source f then with_headers h f else f) db.files;
}

unfoldable pub touch_repo : String → String → Db → Db
touch_repo now repo db = record db {
  files = map (λ f. if str_eq f.repo repo then record f { last_accessed = now } else f) db.files;
}

-- ORDER BY repo, name
abbrev pub by_repo_name : File → File → Bool
by_repo_name f g = if str_eq f.repo g.repo then str_leb f.name g.name else str_leb f.repo g.repo

unfoldable pub list_files : Db → List File
list_files db = sort_by by_repo_name db.files

unfoldable pub list_files_with_missing_headers : Db → List File
list_files_with_missing_headers db = select (λ f. is_none f.etag || is_none f.content_type) db.files

abbrev min_str : String → String → String
min_str s t = if str_leb s t then s else t

-- GROUP BY repo with MIN(last_accessed): a row for each repo.
unfoldable pub oldest_access : String → String → List (String × String) → List (String × String)
oldest_access repo t [] = (repo, t) ∷ []
oldest_access repo t ((r, u) ∷ rows) =
    if str_eq r repo then (r, min_str u t) ∷ rows else (r, u) ∷ oldest_access repo t rows

unfoldable pub group_by_repo : List (String × String) → List File → List (String × String)
unfolding oldest_access
group_by_repo rows [] = rows
group_by_repo rows (f ∷ fs) = group_by_repo (oldest_access f.repo f.last_accessed rows) fs

unfoldable pub list_repos_by_access : ℕ → Db → List String
unfolding oldest_access group_by_repo
list_repos_by_access limit db =
    map (λ row. row.0) (take limit (sort_by (λ a b. str_leb a.1 b.1) (group_by_repo [] db.files)))
