-- ===== src/Tests/Service.antt =====
-- The theorems on the service, at the sample database and a file of four bytes.
use hugrs.Prelude.{
  ℕ, ◌≡◌, refl, inl, inr, true, none, some, List, [], ◌∷◌, Result, ok, arith, String,
}
use hugrs.Metadata.Tables.{File, Db, refs}
use hugrs.Metadata.Files.{add_file, new_file, get_file_by_name}
use hugrs.Metadata.Chunks.{ensure_chunk}
use hugrs.Metadata.Links.{
  add_ref, drop_ref, relink_current, relink, unlink_old, replace_link, ensure_chunk_and_link,
  is_chunk_linked,
}
use hugrs.Metadata.Consistency.{IsConsistent}
use hugrs.Metadata.Consistency.History.{call, calls, calls-IsConsistent}
use hugrs.Storage.Trait.{Compression, StorageBackend}
use hugrs.Storage.Local.{Codec, Disk, local_backend}
use hugrs.Storage.Local.RoundTrip.{local-IsSeparate}
use hugrs.Session.State.{Subscriber}
use hugrs.Service.Gc.{gc_execute_batch}
use hugrs.Service.Gc.Safety.{gc_keeps_linked}
use hugrs.Service.Refresh.{FetchedMetadata, reconcile_fetched_metadata, drop_stale}
use hugrs.Service.Refresh.Effect.{
  HasHeaders, reconcile_fetched_metadata_succeeds, reconcile_fetched_metadata_drops,
}
use hugrs.Service.Stream.{Source, read, stream_range}
use hugrs.Service.Stream.Serving.{gather}
use hugrs.Service.Stream.Range.{stream_range_serves}
use hugrs.Session.Ranges.{resolve_range}
use hugrs.Tests.Samples.{now, link, sample_calls, sample_db}

abbrev plain_codec : Codec
plain_codec = record { encode_all = λ xs. xs; decode_all = λ xs. ok xs }

abbrev sample_file : List ℕ
sample_file = 10 ∷ 11 ∷ 12 ∷ 13 ∷ []

-- A disk that holds the sample file under every name.
abbrev full_disk : Disk
full_disk p = some sample_file

gc_keeps_linked_example :
    let b = local_backend plain_codec Compression.none in
    let after = (gc_execute_batch b 32 (sample_db, full_disk)).1 in
    (b.get "aa11" after.1 ≡ b.get "aa11" full_disk)
    × IsConsistent after.0
    × (after.0.file_chunks ≡ sample_db.file_chunks)
    × (after.0.files ≡ sample_db.files)
unfolding calls call add_file new_file ensure_chunk_and_link ensure_chunk relink_current relink
    unlink_old replace_link is_chunk_linked refs add_ref drop_ref
gc_keeps_linked_example =
    gc_keeps_linked (local_backend plain_codec Compression.none)
      (local-IsSeparate plain_codec Compression.none) 32 sample_db full_disk "aa11"
      (calls-IsConsistent sample_calls) (omega arith)

abbrev sample_metadata : FetchedMetadata
sample_metadata = record {
  size = 3;
  etag = some "v1";
  content_type = none;
  x_repo_commit = none;
  x_linked_size = none;
  x_linked_etag = none;
}

reconcile_fetched_metadata_succeeds_example :
    (after : Db) × (reconcile_fetched_metadata now "org/repo/f" "org/repo" "hf" sample_metadata
        sample_db
      ≡ ok after)
    × HasHeaders "org/repo/f" "hf" sample_metadata after
    × (after.file_chunks ≡ (drop_stale now "org/repo/f" "hf" sample_metadata sample_db).file_chunks)
    × (after.chunks ≡ (drop_stale now "org/repo/f" "hf" sample_metadata sample_db).chunks)
reconcile_fetched_metadata_succeeds_example =
    reconcile_fetched_metadata_succeeds now "org/repo/f" "org/repo" "hf" sample_metadata sample_db

abbrev tagged_file : File
tagged_file = record {
  id = 1;
  name = "org/repo/f";
  repo = "org/repo";
  total_size = 3;
  created_at = now;
  last_accessed = now;
  source = "hf";
  etag = some "W/\"v1\"";
  x_repo_commit = none;
  x_linked_size = none;
  x_linked_etag = none;
  content_type = none;
}

abbrev tagged_db : Db
tagged_db = record {
  files = tagged_file ∷ [];
  chunks = [];
  file_chunks = link ∷ [];
  last_file_id = 1;
}

reconcile_fetched_metadata_drops_example :
    (after : Db) × (reconcile_fetched_metadata now "org/repo/f" "org/repo" "hf"
        (record sample_metadata { etag = none })
        tagged_db
      ≡ ok after)
    × (after.file_chunks ≡ [])
unfolding get_file_by_name
reconcile_fetched_metadata_drops_example =
    reconcile_fetched_metadata_drops now "org/repo/f" "org/repo" "hf"
      (record sample_metadata { etag = none }) tagged_db tagged_file refl (inr (inl refl))

-- A store that is one byte string, under every name.
abbrev one_string : StorageBackend
one_string = record {
  Store = List ℕ;
  put = λ k bytes s. (ok 0, bytes);
  get = λ k s. ok s;
  has_key = λ k s. ok true;
  delete = λ k s. (ok tt, s);
}

abbrev sample_source : Source
sample_source = record {
  backend = one_string;
  sha256_hex = λ xs. "aa11";
  verify_sha256 = true;
  prefetch_depth = 2;
}

abbrev sample_range : Subscriber
sample_range = record { start = 1; last = 2; channel = 0 }

stream_range_serves_example :
    (sent : List (Result String (List ℕ))) × (stream_range sample_source sample_file
        (record { start = 1; last = 3; content_length = 3 })
        (link ∷ [])
      ≡ some sent)
    × (gather sent ≡ ok (11 ∷ 12 ∷ 13 ∷ []))
unfolding read resolve_range
stream_range_serves_example =
    stream_range_serves sample_source sample_file sample_file (link ∷ []) (some (1, none))
      (record { start = 1; last = 3; content_length = 3 }) refl refl (refl, tt)
