-- ===== src/Tests/Catalog.antt =====
-- The theorems on the catalogue, on evictions and on deletions, at the sample database.
use hugrs.Prelude.{◌≡◌, not, some, select}
use hugrs.Metadata.Tables.{empty}
use hugrs.Metadata.Consistency.History.{deletes_file, call, calls, calls-IsConsistent}
use hugrs.Metadata.Catalog.{view, promised, chunk_known}
use hugrs.Metadata.Catalog.Refinement.{call-promised}
use hugrs.Storage.Trait.{Compression}
use hugrs.Storage.Local.RoundTrip.{local-IsSeparate}
use hugrs.Service.Evict.{evict_if_needed}
use hugrs.Service.Evict.Progress.{IsEvicted, evict_if_needed_ends}
use hugrs.Service.Evict.Sparing.{Spared, evict_if_needed-Spared}
use hugrs.Service.Removal.{is_of_repo, delete_repo_all_sources}
use hugrs.Service.Removal.Exactness.{delete_repo_all_sources-files}
use hugrs.Tests.Samples.{now, sample_calls, sample_db, backend, disk, plain_codec}

call-promised_example :
    view (call now (deletes_file "org/repo/f" "hf") (calls sample_calls empty))
    ≡ promised
        (chunk_known (deletes_file "org/repo/f" "hf") (calls sample_calls empty))
        (deletes_file "org/repo/f" "hf")
        (view (calls sample_calls empty))
call-promised_example = call-promised sample_calls now (deletes_file "org/repo/f" "hf")

evict_if_needed_ends_example : IsEvicted backend 2 (evict_if_needed backend now 2 (sample_db, disk))
evict_if_needed_ends_example = evict_if_needed_ends backend now 2 (sample_db, disk)

evict_if_needed-Spared_example :
    Spared backend
      (local-IsSeparate plain_codec Compression.none)
      "aa11"
      (sample_db, disk)
      (evict_if_needed backend now 2 (sample_db, disk))
evict_if_needed-Spared_example =
    evict_if_needed-Spared backend (local-IsSeparate plain_codec Compression.none) "aa11" now 2
      (sample_db, disk) (calls-IsConsistent sample_calls)

delete_repo_all_sources-files_example :
    (delete_repo_all_sources now "org/repo" (some "hf") (calls sample_calls empty)).1.files
    ≡ select (λ f. not (is_of_repo "org/repo" (some "hf") f)) (calls sample_calls empty).files
delete_repo_all_sources-files_example =
    delete_repo_all_sources-files sample_calls now "org/repo" (some "hf")
