-- ===== src/Server/Proxy/Validation.antt =====
-- What a GET of a cached file answers, by the outcome of the check of its tag.
use hugrs.Prelude.{
  ℕ, ◌≡◌, refl, ap, ◌∙◌, String, Bool, true, false, Option, some, List, Result, ok, err, leb,
  if◌then◌else◌, str_eq,
}
use hugrs.Metadata.Tables.{File, Db}
use hugrs.Metadata.Files.{get_file_by_name}
use hugrs.Metadata.Deletion.{delete_file}
use hugrs.Session.Ranges.{Range, req_start}
use hugrs.Service.Refresh.{FetchedMetadata, reconcile_fetched_metadata}
use hugrs.Service.Refresh.Effect.{reconcile_fetched_metadata_succeeds}
use hugrs.Service.Removal.{get_complete_file}
use hugrs.Service.Probe.{MetadataProbeResult, metadata, validate_file_etag}
use hugrs.Server.Range.{parse_range}
use hugrs.Server.Response.{build_304_response}
use hugrs.Server.Proxy.{
  Request, Streams, Upstream, check_cached, validated, cached_etag, client_has, respond, serve_file,
  serve_row, stream_reconciled, stream_from_upstream_with_metadata, miss, get_file,
}

-- The file of a request is complete in the cache, has a tag, and its range starts inside it.
pub record IsCached (q : Request) (db : Db) (f : File) (tag : String) : Type 0 where
  pub complete : get_complete_file q.cache_name q.source db ≡ some f
  pub tagged : f.etag ≡ some tag
  pub inside : leb f.total_size (req_start (parse_range q.range)) ≡ false

-- The upstream server has another tag for it.
abbrev pub IsChanged : String → Option (Result String MetadataProbeResult) → Type 0
IsChanged tag reply =
    (m : FetchedMetadata) × (upstream : String) × (reply ≡ some (ok (metadata m)))
    × (m.etag ≡ some upstream)
    × (str_eq upstream tag ≡ false)

changed_outcome :
    (tag : String) (reply : Option (Result String MetadataProbeResult))
    → IsChanged tag reply
    → (ct : Option String) × (validate_file_etag tag reply
        ≡ ok (record { matched = false; content_type = ct }))
unfolding validate_file_etag
changed_outcome tag reply (m, upstream, e, new, differs) =
    (m.content_type, rw (e, new, differs) refl)

module _ {B : Type 0} (is_value : List ℕ → Bool) (service : Streams B) where
  cached_tag :
      (q : Request) (db : Db) (f : File) (tag : String)
      → IsCached q db f tag
      → cached_etag (parse_range q.range) (get_complete_file q.cache_name q.source db) ≡ some tag
  cached_tag q db f tag c = rw (c.complete, c.inside) c.tagged

  -- The handler, once the cached file and its tag are known.
  get-respond :
      (now : String) (q : Request) (up : Upstream B) (db : Db) (s : service.State) (f : File)
      (tag : String)
      → IsCached q db f tag
      → get_file is_value service now q up (db, s)
        ≡ respond is_value service now q up
            (parse_range q.range)
            (some tag)
            (validated now q f (validate_file_etag tag up.validation) db)
            s
  unfolding get_file check_cached
  get-respond now q up db s f tag c =
      ap
        (λ cached.
          respond is_value service now q up (parse_range q.range)
            (cached_etag (parse_range q.range) cached)
            (check_cached now q up.validation cached (cached_etag (parse_range q.range) cached) db)
            s)
        c.complete
      ∙ ap
          (λ etag.
            respond is_value service now q up (parse_range q.range) etag
              (check_cached now q up.validation (some f) etag db) s)
          (rw c.inside c.tagged)

  -- For a file that is complete in the cache, with a tag and a range that starts inside it: where the
  -- upstream server says another tag, the row is deleted, and still a client that has the old tag is
  -- answered 304.
  pub get_changed_not_modified :
      (now : String) (q : Request) (up : Upstream B) (db : Db) (s : service.State) (f : File)
      (tag : String)
      → IsCached q db f tag
      → IsChanged tag up.validation
      → client_has q.if_none_match (some tag) ≡ true
      → get_file is_value service now q up (db, s)
        ≡ (build_304_response is_value f, ((delete_file now q.cache_name q.source db).1, s))
  unfolding validated
  get_changed_not_modified now q up db s f tag c changed has =
      let (ct, outcome) = changed_outcome tag up.validation changed in
      get-respond now q up db s f tag c
      ∙ ap
          (λ r.
            respond is_value service now q up (parse_range q.range) (some tag)
              (validated now q f r db) s)
          outcome
      ∙ rw has refl

  -- A miss with metadata: the row that is streamed has the headers of that metadata.
  pub miss_streams :
      (now : String) (q : Request) (range : Range) (body : B) (m : FetchedMetadata) (db : Db)
      (s : service.State)
      → (after : Db) × ((row : File) × (reconcile_fetched_metadata now q.cache_name q.repo_id
              q.source m db
            ≡ ok after)
          × (get_file_by_name q.cache_name q.source after ≡ some row)
          × (row.etag ≡ m.etag)
          × (miss is_value service now q range body (ok (metadata m)) (db, s)
              ≡ serve_file is_value service q row range (after, s)))
  unfolding miss stream_from_upstream_with_metadata
  miss_streams now q range body m db s =
      let (after, done, (row, there, tag, a, b, d, e), links, chunks) =
        reconcile_fetched_metadata_succeeds now q.cache_name q.repo_id q.source m db in
      (
        after,
        (
          row,
          done,
          there,
          tag,
          ap (λ r. stream_reconciled is_value service q range r (db, s)) done
              ∙ ap (λ r. serve_row is_value service q range r (after, s)) there,
        ),
      )

  -- For a file that is complete in the cache, with a tag and a range that starts inside it: where the
  -- upstream server says another tag, the client has not the old one, and the next probe gives
  -- metadata, the file is dropped, and the client is served the row that the reconciliation with that
  -- metadata leaves, under its tag. The reconciliation is not refused.
  pub get_changed_refreshes :
      (now : String) (q : Request) (up : Upstream B) (db : Db) (s : service.State) (f : File)
      (tag : String) (m : FetchedMetadata)
      → IsCached q db f tag
      → IsChanged tag up.validation
      → client_has q.if_none_match (some tag) ≡ false
      → up.probe ≡ ok (metadata m)
      → (after : Db) × ((row : File) × (reconcile_fetched_metadata now q.cache_name q.repo_id
              q.source m
              (delete_file now q.cache_name q.source db).1
            ≡ ok after)
          × (get_file_by_name q.cache_name q.source after ≡ some row)
          × (row.etag ≡ m.etag)
          × (get_file is_value service now q up (db, s)
              ≡ serve_file is_value service q row (parse_range q.range) (after, s)))
  unfolding validated
  get_changed_refreshes now q up db s f tag m c changed has_not probed =
      let (ct, outcome) = changed_outcome tag up.validation changed in
      let (after, (row, done, there, new, served)) =
        miss_streams now q (parse_range q.range) up.failure_body m
          (delete_file now q.cache_name q.source db).1 s in
      (
        after,
        (
          row,
          done,
          there,
          new,
          get-respond now q up db s f tag c
              ∙ ap
                  (λ r.
                    respond is_value service now q up (parse_range q.range) (some tag)
                      (validated now q f r db) s)
                  outcome
              ∙ rw has_not refl
              ∙ ap
                  (λ r.
                    miss is_value service now q (parse_range q.range) up.failure_body r
                      ((delete_file now q.cache_name q.source db).1, s))
                  probed
              ∙ served,
        ),
      )

  -- For a file that is complete in the cache, with a tag and a range that starts inside it: where the
  -- check of the tag fails, by a time-out, an error or a failure of the upstream server, the file is
  -- served as it is, or answered 304 to a client that has the tag, on metadata that is left alone.
  pub get_degraded :
      (now : String) (q : Request) (up : Upstream B) (db : Db) (s : service.State) (f : File)
      (tag e : String)
      → IsCached q db f tag
      → validate_file_etag tag up.validation ≡ err e
      → get_file is_value service now q up (db, s) ≡ (
          if client_has q.if_none_match (some tag)
          then (build_304_response is_value f, (db, s))
          else serve_file is_value service q f (parse_range q.range) (db, s))
  unfolding validated
  get_degraded now q up db s f tag e c failed =
      get-respond now q up db s f tag c
      ∙ ap
          (λ r.
            respond is_value service now q up (parse_range q.range) (some tag)
              (validated now q f r db) s)
          failed
      ∙ rw c.inside refl
