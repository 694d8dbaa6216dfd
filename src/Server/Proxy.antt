-- ===== src/Server/Proxy.antt =====
-- `file_proxy_inner` of src/server.rs: what a GET or HEAD of a file answers, and what it does to the
-- metadata store. What the upstream server replies is an argument. The stream of a file is an
-- operation of the service: the session that it opens is modelled in Session.
pub mod Validation
use hugrs.Prelude.{
  ℕ, String, Bool, true, false, ◌&&◌, ◌||◌, not, Option, none, some, List, [], ◌∷◌, ◌++◌, map,
  Result, ok, err, leb, if◌then◌else◌, is_none, chars,
}
use hugrs.Metadata.Tables.{File, Db, SqlError}
use hugrs.Metadata.Files.{Headers, get_file_by_name, set_file_headers}
use hugrs.Metadata.Deletion.{delete_file}
use hugrs.Session.Ranges.{Range, req_start}
use hugrs.Service.Refresh.{FetchedMetadata, reconcile_fetched_metadata}
use hugrs.Service.Removal.{get_complete_file}
use hugrs.Service.Probe.{
  MetadataProbeResult, metadata, upstream_failure, EtagValidationOutcome, validate_file_etag,
}
use hugrs.Server.Range.{parse_range}
use hugrs.Server.Conditional.{etag_matches_any}
use hugrs.Server.Response.{
  AppError, anyhow, Response, Header, build_304_response, build_head_response,
  build_stream_response, built,
}
use hugrs.Server.Singleflight.{MetadataReconcileOutcome, metadata_ready, forward_head_failure}

-- The request: its path, the file it names, and the two headers that the handler reads.
pub record Request : Type 0 where
  pub path : List ℕ
  pub cache_name : String
  pub repo_id : String
  pub source : String
  pub range : Option (List ℕ)
  pub if_none_match : Option (List ℕ)

-- What the service does for a file: its stream over a range, which may change what it keeps.
pub record Streams (B : Type 0) : Type 1 where
  pub State : Type 0
  pub stream_http_file : File → Range → Db × State → Result String (File × ℕ × B) × (Db × State)

-- What the upstream server does during one request: the probe that validates the tag (none where it
-- times out), the probe of a miss, and the body that comes with its failure.
pub record Upstream (B : Type 0) : Type 0 where
  pub validation : Option (Result String MetadataProbeResult)
  pub probe : Result String MetadataProbeResult
  pub failure_body : B

-- What is known of the cached file after its tag was checked.
pub record Checked : Type 0 where
  pub file : Option File
  pub etag_invalid : Bool
  pub db : Db

-- `range.map(|r| r.0).unwrap_or(0) >= f.total_size`
abbrev pub is_stale : Range → Option File → Bool
is_stale range none = false
is_stale range (some f) = leb f.total_size (req_start range)

abbrev pub etag_of : Option File → Option String
etag_of none = none
etag_of (some f) = f.etag

-- The tag of a cached file whose range is inside it.
abbrev pub cached_etag : Range → Option File → Option String
cached_etag range file = if is_stale range file then none else etag_of file

-- A content type that the row lacks is filled in.
unfoldable pub backfill : Request → File → Option String → Db → File × Db
unfolding set_file_headers
backfill q f none db = (f, db)
backfill q f (some ct) db =
    if is_none f.content_type
    then (
      record f { content_type = some ct },
      set_file_headers q.cache_name q.source
          (record {
            etag = f.etag;
            x_repo_commit = f.x_repo_commit;
            x_linked_size = f.x_linked_size;
            x_linked_etag = f.x_linked_etag;
            content_type = some ct;
          })
          db,
    )
    else (f, db)

-- The outcome of the validation: matched, changed, or failed, which serves what is there.
unfoldable pub validated :
    String → Request → File → Result String EtagValidationOutcome → Db → Checked
unfolding backfill delete_file
validated now q f (err e) db = record { file = some f; etag_invalid = false; db = db }
validated now q f (ok outcome) db = elim outcome.matched [
  | true ↦
      let (f', db') = backfill q f outcome.content_type db in
      record { file = some f'; etag_invalid = false; db = db' }
  | false ↦ record {
    file = some f;
    etag_invalid = true;
    db = (delete_file now q.cache_name q.source db).1;
  }
]

-- The cached file, checked where its tag is known.
unfoldable pub check_cached :
    String
    → Request
    → Option (Result String MetadataProbeResult)
    → Option File
    → Option String
    → Db
    → Checked
unfolding validated validate_file_etag
check_cached now q reply none etag db = record { file = none; etag_invalid = false; db = db }
check_cached now q reply (some f) none db = record { file = some f; etag_invalid = false; db = db }
check_cached now q reply (some f) (some etag) db =
    validated now q f (validate_file_etag etag reply) db

-- Does the client have the cached tag?
abbrev pub client_has : Option (List ℕ) → Option String → Bool
client_has (some inm) (some etag) = etag_matches_any (chars etag) inm
client_has _ _ = false

abbrev pub failure_headers : List (String × String) → List Header
failure_headers = map (λ h. (h.0, chars h.1))

module _ {B : Type 0} (is_value : List ℕ → Bool) (service : Streams B) where
  abbrev pub World : Type 0
  World = Db × service.State

  abbrev pub streamed :
      List ℕ → Range → Result String (File × ℕ × B) × World → Result AppError (Response B) × World
  streamed path range (err e, w) = (err (anyhow e), w)
  streamed path range (ok (file, content_length, stream), w) =
      (build_stream_response is_value file content_length stream path range, w)

  unfoldable pub serve_file : Request → File → Range → World → Result AppError (Response B) × World
  serve_file q file range w = streamed q.path range (service.stream_http_file file range w)

  -- `stream_from_upstream_with_metadata`, behind the reconciliation.
  abbrev pub serve_row :
      Request → Range → Option File → World → Result AppError (Response B) × World
  serve_row q range none w = (err (anyhow "file disappeared after creation"), w)
  serve_row q range (some file) w = serve_file q file range w

  abbrev pub stream_reconciled :
      Request → Range → Result SqlError Db → World → Result AppError (Response B) × World
  stream_reconciled q range (err e) w = (err (anyhow "metadata"), w)
  stream_reconciled q range (ok db) w =
      serve_row q range (get_file_by_name q.cache_name q.source db) (db, w.1)

  unfoldable pub stream_from_upstream_with_metadata :
      String → Request → Range → FetchedMetadata → World → Result AppError (Response B) × World
  unfolding serve_file reconcile_fetched_metadata get_file_by_name
  stream_from_upstream_with_metadata now q range m w =
      stream_reconciled q range
        (reconcile_fetched_metadata now q.cache_name q.repo_id q.source m w.0) w

  -- A miss: the upstream server is probed, and its failure is passed on with its body.
  unfoldable pub miss :
      String
      → Request
      → Range
      → B
      → Result String MetadataProbeResult
      → World
      → Result AppError (Response B) × World
  unfolding stream_from_upstream_with_metadata built
  miss now q range body (err e) w = (err (anyhow e), w)
  miss now q range body (ok (upstream_failure status headers)) w = (
    built is_value
        (record { status = status; headers = failure_headers headers; body = some body }),
    w,
  )
  miss now q range body (ok (metadata m)) w = stream_from_upstream_with_metadata now q range m w

  -- What is served once the tag was checked and the client has not the file.
  abbrev pub serve_checked :
      String
      → Request
      → Upstream B
      → Range
      → Checked
      → Option File
      → service.State
      → Result AppError (Response B) × World
  serve_checked now q up range c none s = miss now q range up.failure_body up.probe (c.db, s)
  serve_checked now q up range c (some f) s =
      if not c.etag_invalid && not (is_stale range (some f))
      then serve_file q f range (c.db, s)
      else miss now q range up.failure_body up.probe (c.db, s)

  abbrev pub not_modified :
      Option File
      → World
      → Result AppError (Response B) × World
      → Result AppError (Response B) × World
  not_modified none w other = other
  not_modified (some f) w other = (build_304_response is_value f, w)

  abbrev pub respond :
      String
      → Request
      → Upstream B
      → Range
      → Option String
      → Checked
      → service.State
      → Result AppError (Response B) × World
  respond now q up range etag c s =
      let served = serve_checked now q up range c c.file s in
      if client_has q.if_none_match etag then not_modified c.file (c.db, s) served else served

  -- GET
  unfoldable pub get_file :
      String → Request → Upstream B → World → Result AppError (Response B) × World
  unfolding check_cached miss serve_file build_304_response parse_range get_complete_file
      etag_matches_any
  get_file now q up (db, s) =
      let range = parse_range q.range in
      let cached = get_complete_file q.cache_name q.source db in
      let etag = cached_etag range cached in
      respond now q up range etag (check_cached now q up.validation cached etag db) s

  -- HEAD, behind the shared metadata request.
  abbrev pub head_of : Request → Option File → Result AppError (Response B)
  head_of q none = err (anyhow "metadata reconcile completed without persisted file")
  head_of q (some file) = build_head_response is_value file q.path

  unfoldable pub head_file :
      Request → Result String MetadataReconcileOutcome → Db → Result AppError (Response B)
  unfolding build_head_response get_file_by_name built
  head_file q (err e) db = err (anyhow e)
  head_file q (ok metadata_ready) db = head_of q (get_file_by_name q.cache_name q.source db)
  head_file q (ok (forward_head_failure status headers)) db =
      built is_value (record { status = status; headers = failure_headers headers; body = none })
