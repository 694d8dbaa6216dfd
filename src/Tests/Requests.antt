-- ===== src/Tests/Requests.antt =====
-- The theorems on ranges, conditional requests, redirects, probes and admin requests.
use hugrs.Prelude.{
  ℕ, ◌≡◌, ◌≢◌, ◌↔◌, ◌+◌, ◌-◌, ◌<◌, refl, inr, true, false, none, some, Option, List, [], ◌∷◌, ◌++◌,
  Result, ok, err, String, All, chars, arith,
}
use hugrs.Prelude.Decimal.{parse_u64}
use hugrs.Session.Ranges.{chunk_first, chunk_last, resolve_range, Span}
use hugrs.Server.Range.{parse_range, range_header}
use hugrs.Server.Range.RoundTrip.{chunk_request_served}
use hugrs.Server.Response.{unauthorized, content_range}
use hugrs.Server.Response.ContentRange.{content_range_true_iff}
use hugrs.Server.Conditional.{etag_matches_any, resolve_redirect}
use hugrs.Server.Conditional.Matching.{resolve_redirect_path}
use hugrs.Server.Conditional.Tags.{Entry, IsTag, IsEntry, etag_matches_any_listed}
use hugrs.Service.Refresh.{FetchedMetadata}
use hugrs.Service.Probe.{Reply, metadata, probed, header}
use hugrs.Service.Probe.Outcome.{IsLast, probed-metadata}
use hugrs.Metadata.Consistency.{IsConsistent}
use hugrs.Metadata.Consistency.History.{calls-IsConsistent}
use hugrs.Storage.Trait.{Compression}
use hugrs.Storage.Local.RoundTrip.{local-IsSeparate}
use hugrs.Server.Admin.{repo_delete, handle, control}
use hugrs.Server.Admin.Access.{control_admits, control-IsConsistent}
use hugrs.Tests.Samples.{now, sample_calls, sample_db, backend, disk, plain_codec}

chunk_request_served_example :
    resolve_range 5000000 (parse_range (some (range_header (chunk_first 1) (chunk_last 5000000 1))))
    ≡ ok (record {
      start = chunk_first 1;
      last = chunk_last 5000000 1;
      content_length = chunk_last 5000000 1 - chunk_first 1 + 1;
    })
chunk_request_served_example = chunk_request_served 5000000 1 (omega arith) (omega arith)

abbrev open_span : Span
open_span = record { start = 2; last = 9; content_length = 8 }

open_resolved : resolve_range 10 (some (2, none)) ≡ ok open_span
unfolding resolve_range
open_resolved = refl

content_range_true_iff_example :
    (content_range 10 2 none ≡ content_range 10 2 (some 9))
    ↔ ((e : ℕ) × (◌≡◌ {A = Option ℕ} none (some e)) × (e < 10))
content_range_true_iff_example =
    content_range_true_iff 10 2 none open_span (omega arith) (λ e h. absurd (ground arith))
      open_resolved

-- ` W/"v0", "v1"`, with blanks around.
abbrev listed : List Entry
listed =
    record { left = 32 ∷ []; weak = true; tag = chars "v0"; right = [] }
    ∷ record { left = 32 ∷ []; weak = false; tag = chars "v1"; right = 32 ∷ [] }
    ∷ []

v0-IsTag : IsTag (chars "v0")
v0-IsTag = (refl, ((refl, refl), ((refl, refl), tt)))

v1-IsTag : IsTag (chars "v1")
v1-IsTag = (refl, ((refl, refl), ((refl, refl), tt)))

listed-IsEntry : All IsEntry listed
listed-IsEntry = (
  record { left_blank = (refl, tt); is_tag = v0-IsTag; right_blank = tt },
  (record { left_blank = (refl, tt); is_tag = v1-IsTag; right_blank = (refl, tt) }, tt),
)

etag_matches_any_listed_example :
    etag_matches_any (chars "W/\"v1\"") (chars " W/\"v0\", \"v1\" ") ≡ true
etag_matches_any_listed_example =
    etag_matches_any_listed true (chars "v1") listed v1-IsTag listed-IsEntry

resolve_redirect_path_example :
    resolve_redirect
      (chars "https" ++ (chars "://" ++ (chars "hf.co" ++ chars "/a/b")))
      (47 ∷ chars "c")
    ≡ chars "https" ++ (chars "://" ++ (chars "hf.co" ++ 47 ∷ chars "c"))
resolve_redirect_path_example =
    resolve_redirect_path (chars "https") (chars "hf.co") (chars "/a/b") (chars "c")
      (refl, (refl, (refl, (refl, (refl, tt))))) (refl, (refl, (refl, (refl, (refl, tt)))))
      (inr refl) refl

abbrev moved : Reply
moved = record {
  status = 302;
  headers = ("location", some "https://cdn/f") ∷ ("x-linked-etag", some "\"l\"") ∷ [];
}

abbrev at_cdn : Reply
at_cdn = record {
  status = 200;
  headers = ("content-length", some "3") ∷ ("etag", some "\"e\"") ∷ [];
}

abbrev follow : List ℕ → Result String Reply
follow url = ok at_cdn

abbrev found : FetchedMetadata
found = record {
  size = 3;
  etag = some "\"e\"";
  content_type = none;
  x_repo_commit = none;
  x_linked_size = none;
  x_linked_etag = some "\"l\"";
}

moved-probed : probed "https://hf.co/f" follow moved ≡ ok (metadata found)
unfolding probed parse_u64
moved-probed = refl

probed-metadata_example :
    (0 < found.size)
    × (found.x_linked_etag ≡ header "x-linked-etag" moved.headers)
    × ((last : Reply) × IsLast "https://hf.co/f" follow moved last
        × (found.etag ≡ header "etag" last.headers))
probed-metadata_example = probed-metadata "https://hf.co/f" follow moved found moved-probed

control_admits_example :
    (◌≡◌ {A = Option (List ℕ)} none (some (chars "Bearer " ++ chars "t"))
      → control backend now 0 0 "t" none (repo_delete "org/repo" none) (sample_db, disk)
        ≡ handle backend now 0 0 (repo_delete "org/repo" none) (sample_db, disk))
    × (◌≢◌ {A = Option (List ℕ)} none (some (chars "Bearer " ++ chars "t"))
        → control backend now 0 0 "t" none (repo_delete "org/repo" none) (sample_db, disk)
          ≡ (err unauthorized, (sample_db, disk)))
control_admits_example =
    control_admits backend now 0 0 "t" none (repo_delete "org/repo" none) (sample_db, disk)

control-IsConsistent_example :
    IsConsistent
      (control backend now 0 0 "t"
        (some (chars "Bearer t"))
        (repo_delete "org/repo" none)
        (sample_db, disk)).1.0
control-IsConsistent_example =
    control-IsConsistent backend now 0 0 "t" (some (chars "Bearer t")) (repo_delete "org/repo" none)
      (sample_db, disk) (local-IsSeparate plain_codec Compression.none)
      (calls-IsConsistent sample_calls)
