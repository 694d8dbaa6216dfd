-- ===== src/Tests/Proxy.antt =====
-- The theorems on the request of a file, at a cached file with a tag and a service that streams three bytes.
use hugrs.Prelude.{ℕ, Bool, true, ◌≡◌, refl, String, none, some, List, [], ◌∷◌, ok, chars}
use hugrs.Metadata.Tables.{File, Db, empty}
use hugrs.Metadata.Files.{get_file_by_name, add_file, new_file, set_file_headers, with_headers}
use hugrs.Metadata.Chunks.{ensure_chunk, new_chunk}
use hugrs.Metadata.Links.{
  add_ref, drop_ref, relink_current, relink, unlink_old, replace_link, ensure_chunk_and_link,
  is_chunk_linked, get_file_downloaded_size,
}
use hugrs.Metadata.Deletion.{delete_file}
use hugrs.Metadata.Consistency.History.{Call, adds, sets_headers, ensures_and_links, call, calls}
use hugrs.Service.Refresh.{FetchedMetadata, reconcile_fetched_metadata}
use hugrs.Service.Probe.{metadata, validate_file_etag}
use hugrs.Service.Removal.{get_complete_file}
use hugrs.Server.Range.{parse_range}
use hugrs.Server.Response.{build_304_response}
use hugrs.Server.Conditional.{etag_matches_any, listed_tags}
use hugrs.Server.Proxy.{Request, Streams, Upstream, client_has, serve_file, get_file}
use hugrs.Server.Proxy.Validation.{
  IsCached, IsChanged, get_changed_not_modified, get_changed_refreshes, get_degraded,
}
use hugrs.Tests.Samples.{now, link}

abbrev tagged_calls : List (String × Call)
tagged_calls =
    (now, adds "org/repo/f" "org/repo" 3 "hf")
    ∷ (
      now,
      sets_headers "org/repo/f" "hf" (record {
        etag = some "v1";
        x_repo_commit = none;
        x_linked_size = none;
        x_linked_etag = none;
        content_type = none;
      }),
    )
    ∷ (now, ensures_and_links "local" "aa/11/aa11" 3 3 link)
    ∷ []

abbrev tagged_db : Db
tagged_db = calls tagged_calls empty

abbrev tagged : File
tagged = record {
  id = 1;
  name = "org/repo/f";
  repo = "org/repo";
  total_size = 3;
  created_at = now;
  last_accessed = now;
  source = "hf";
  etag = some "v1";
  x_repo_commit = none;
  x_linked_size = none;
  x_linked_etag = none;
  content_type = none;
}

-- A client that has no tag, and one that has the tag of the cached file.
abbrev fresh : Request
fresh = record {
  path = chars "f";
  cache_name = "org/repo/f";
  repo_id = "org/repo";
  source = "hf";
  range = none;
  if_none_match = none;
}

abbrev returning : Request
returning = record fresh { if_none_match = some (chars "v1") }

abbrev all_visible : List ℕ → Bool
all_visible v = true

abbrev service : Streams (List ℕ)
service = record {
  State = Unit;
  stream_http_file = λ file range w. (ok (file, file.total_size, 1 ∷ 2 ∷ 3 ∷ []), w);
}

abbrev changed_metadata : FetchedMetadata
changed_metadata = record {
  size = 3;
  etag = some "v2";
  content_type = none;
  x_repo_commit = none;
  x_linked_size = none;
  x_linked_etag = none;
}

-- An upstream server with another tag, and one that does not answer the check.
abbrev changed : Upstream (List ℕ)
changed = record {
  validation = some (ok (metadata changed_metadata));
  probe = ok (metadata changed_metadata);
  failure_body = [];
}

abbrev silent : Upstream (List ℕ)
silent = record changed { validation = none }

fresh-IsCached : IsCached fresh tagged_db tagged "v1"
unfolding calls call add_file new_file set_file_headers with_headers ensure_chunk_and_link
    ensure_chunk new_chunk relink_current relink unlink_old replace_link is_chunk_linked add_ref
    drop_ref get_complete_file get_file_by_name get_file_downloaded_size parse_range
fresh-IsCached = record { complete = refl; tagged = refl; inside = refl }

returning-IsCached : IsCached returning tagged_db tagged "v1"
unfolding calls call add_file new_file set_file_headers with_headers ensure_chunk_and_link
    ensure_chunk new_chunk relink_current relink unlink_old replace_link is_chunk_linked add_ref
    drop_ref get_complete_file get_file_by_name get_file_downloaded_size parse_range
returning-IsCached = record { complete = refl; tagged = refl; inside = refl }

other_tag : IsChanged "v1" (some (ok (metadata changed_metadata)))
other_tag = (changed_metadata, "v2", refl, refl, refl)

returning_has : client_has (some (chars "v1")) (some "v1") ≡ true
unfolding etag_matches_any listed_tags
returning_has = refl

get_changed_not_modified_example :
    get_file all_visible service now returning changed (tagged_db, tt)
    ≡ (build_304_response all_visible tagged, ((delete_file now "org/repo/f" "hf" tagged_db).1, tt))
get_changed_not_modified_example =
    get_changed_not_modified all_visible service now returning changed tagged_db tt tagged "v1"
      returning-IsCached other_tag returning_has

get_changed_refreshes_example :
    (after : Db) × ((row : File) × (reconcile_fetched_metadata now "org/repo/f" "org/repo" "hf"
          changed_metadata
          (delete_file now "org/repo/f" "hf" tagged_db).1
        ≡ ok after)
      × (get_file_by_name "org/repo/f" "hf" after ≡ some row)
      × (row.etag ≡ some "v2")
      × (get_file all_visible service now fresh changed (tagged_db, tt)
          ≡ serve_file all_visible service fresh row (parse_range none) (after, tt)))
get_changed_refreshes_example =
    get_changed_refreshes all_visible service now fresh changed tagged_db tt tagged "v1"
      changed_metadata fresh-IsCached other_tag refl refl

get_degraded_example :
    get_file all_visible service now fresh silent (tagged_db, tt)
    ≡ serve_file all_visible service fresh tagged (parse_range none) (tagged_db, tt)
unfolding validate_file_etag
get_degraded_example =
    get_degraded all_visible service now fresh silent tagged_db tt tagged "v1"
      "etag validation timed out" fresh-IsCached refl
