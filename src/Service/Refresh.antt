-- ===== src/Service/Refresh.antt =====
-- `etags_equivalent` and `reconcile_fetched_metadata` of src/service.rs: the row of a file is brought
-- into line with what the upstream server says of it.
pub mod Effect
use hugrs.Prelude.{
  ℕ, String, Bool, true, false, ◌&&◌, ◌||◌, not, Option, none, some, List, [], ◌∷◌, ◌++◌, ℤ, Result,
  ok, err, ◌==◌, leb, str_eq, chars, is_whitespace, trim_both, same_chars, is_none, if◌then◌else◌,
}
use hugrs.Metadata.Tables.{File, Db, SqlError}
use hugrs.Metadata.Files.{Headers, add_file, get_file_by_name, set_file_headers, touch_repo}
use hugrs.Metadata.Deletion.{delete_file}

-- `trim_start_matches("W/")`, which strips every such prefix.
abbrev pub strip_weak : List ℕ → List ℕ
strip_weak [] = []
strip_weak (c ∷ []) = c ∷ []
strip_weak (c ∷ d ∷ cs) =
    let rest = strip_weak cs in if (c == 87) && (d == 47) then rest else c ∷ d ∷ cs

abbrev pub is_quote : ℕ → Bool
is_quote c = c == 34

abbrev pub normalize : String → List ℕ
normalize etag = trim_both is_quote (strip_weak (trim_both is_whitespace (chars etag)))

unfoldable pub etags_equivalent : Option String → Option String → Bool
etags_equivalent (some lhs) (some rhs) = same_chars (normalize lhs) (normalize rhs)
etags_equivalent none none = true
etags_equivalent _ _ = false

pub record FetchedMetadata : Type 0 where
  pub size : ℕ
  pub etag : Option String
  pub content_type : Option String
  pub x_repo_commit : Option String
  pub x_linked_size : Option ℤ
  pub x_linked_etag : Option String

unfoldable pub should_delete : Option File → Option String → Bool
unfolding etags_equivalent
should_delete none etag = false
should_delete (some file) etag =
    is_none file.etag || is_none etag || not (etags_equivalent file.etag etag)

abbrev pub headers_of : FetchedMetadata → Headers
headers_of m = record {
  etag = m.etag;
  x_repo_commit = m.x_repo_commit;
  x_linked_size = m.x_linked_size;
  x_linked_etag = m.x_linked_etag;
  content_type = m.content_type;
}

-- The first part: a row that is out of date goes.
unfoldable pub drop_stale : String → String → String → FetchedMetadata → Db → Db
unfolding should_delete
drop_stale now name source m db =
    if should_delete (get_file_by_name name source db) m.etag
    then (delete_file now name source db).1
    else db

abbrev pub add_if : Option File → Result SqlError (File × Db) → Db → Result SqlError Db
add_if (some f) added db = ok db
add_if none (ok (f, db')) db = ok db'
add_if none (err e) db = err e

-- The second part: a row that is missing comes. The size is below 2^63, so that its cast to i64 keeps it.
unfoldable pub add_missing :
    String → String → String → String → FetchedMetadata → Db → Result SqlError Db
add_missing now name repo source m db =
    add_if (get_file_by_name name source db) (add_file now name repo m.size source db) db

abbrev pub finish_row :
    String → String → String → String → FetchedMetadata → Result SqlError Db → Result SqlError Db
finish_row now name repo source m (err e) = err e
finish_row now name repo source m (ok db) =
    ok (touch_repo now repo (set_file_headers name source (headers_of m) db))

unfoldable pub reconcile_fetched_metadata :
    String → String → String → String → FetchedMetadata → Db → Result SqlError Db
unfolding drop_stale add_missing
reconcile_fetched_metadata now name repo source m db =
    finish_row now name repo source m
      (add_missing now name repo source m (drop_stale now name source m db))
