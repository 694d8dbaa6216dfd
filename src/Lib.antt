-- ===== src/Lib.antt =====
-- hugrs is a caching proxy for model files: it serves files of upstream hubs in byte ranges, keeps
-- what it downloads as chunks named by their SHA-256, and remembers in SQLite which file has which
-- chunks. The parts and the files that model them:
--
-- src/metadata.rs (Metadata.antt): the tables files, chunks and file_chunks are the record Db, and
-- each method of MetadataStore is the function of its name: Metadata/Files.antt, Chunks.antt,
-- Links.antt, Deletion.antt, Reconcile.antt and Stats.antt. The text of datetime('now') is an
-- argument. A constraint that refuses a statement is a SqlError; a transaction that is refused
-- leaves the tables as they were. Byte counts are natural numbers, so that the sizes of files are below
-- 2^63, where the casts between u64 and i64 keep them; ref_count is an integer.
-- Metadata/Consistency.antt has the invariant, Metadata/Orphans.antt what the collector sees, and
-- Metadata/Catalog.antt the abstract catalogue: which files are known, under which name and source,
-- with which parts, without counts, marks and rows.
--
-- src/storage/mod.rs, src/storage/local.rs and src/storage/s3.rs (Storage.antt): the trait
-- StorageBackend is a record, which the service and the chunk reader take as a parameter, and the local
-- store (Storage/Local.antt) and the S3 store (Storage/S3.antt) fill it. The zstd codec is a parameter,
-- and so is the client of the AWS SDK.
--
-- src/chunker.rs (Chunker.antt): cutting, assembling and hashing; the digest is a parameter. The fuel
-- of `chunks` is the length of the data, and each round takes a byte at least.
--
-- src/session.rs (Session.antt): a FileSessionActor serves the subscribers of one file. Its state is
-- the record Actor (Session/State.antt), with the messages sent in place of the channels. Ranges.antt
-- is ActorHandle::subscribe and prefetch_budget, Selection.antt select_next_chunk, Forwarding.antt
-- forward_chunk, forward_error and clean_subscribers, Prefetch.antt the prefetches, and Run.antt the
-- loop: a Turn holds what one round meets of the world (arrivals, receivers that have gone, the map of
-- cached chunks, the outcome of a download). The fuel of `run` counts rounds. Fetch.antt is
-- ChunkReader: fetch_chunk with the server's replies as a function of the attempt, where the fuel
-- counts attempts, and read_cached_chunk; Table.antt is SessionTable::subscribe, as steps on the map of
-- downloads. Manager.antt is FileSessionManager, with the actors that run as part of its state; its
-- calls come one after another. Error texts are left without the numbers they format.
--
-- src/service.rs (Service.antt): Gc.antt is gc_dry_run and gc_execute_batch, Refresh.antt is
-- etags_equivalent and reconcile_fetched_metadata, and Stream.antt the task of stream_cached_file with
-- its queue of reads ahead. Evict.antt is evict_if_needed, whose fuel is the number of files and chunks
-- and one more: each turn but the last takes a row of one of the two tables. Removal.antt is
-- get_complete_file, the deletions over all sources and stats. Probe.antt is probe_file_metadata and
-- validate_file_etag, with the reply of the upstream server, and the reply that a redirect would give,
-- as arguments; the time-out is a missing reply.
--
-- src/server.rs (Server.antt): Singleflight.antt is reconcile_metadata_singleflight, as arrivals and
-- completions of calls that share a key. Range.antt is parse_range with the range header that
-- src/session.rs writes, Response.antt the responses with AppError, Conditional.antt
-- etag_matches_any and resolve_redirect, Proxy.antt file_proxy_inner, and Admin.antt
-- require_admin, aggregate_files and the control handlers. Whether a header value is accepted by the
-- http crate is a parameter, and stream_http_file is an operation of an interface: the session that it
-- opens is modelled in Session. A u64 is printed on fuel for its 20 digits.
--
-- src/config.rs (Config.antt): the settings and their defaults; Config/Layers.antt is how
-- texts are read, Cli.antt cli_patch, Env.antt env_patch, Load.antt config_paths and Config::load, and
-- Token.antt ensure_admin_token; Overlay.antt is what a merge does to the settings. The merge
-- of the figment crate is a parameter with its documented behaviour, and the files, the environment and
-- the directories of the dirs crate are arguments, and so is what comes of writing the token file.
--
-- Tests.antt and its children apply the theorems at concrete inputs. Prelude.antt passes on the shared
-- names: lists over native numbers, parts of byte strings, Boolean tests, texts and results; strings as
-- lists of code points with the functions of str that the source uses, and decimal numbers, are in
-- Prelude/Chars.antt and Prelude/Decimal.antt.
--
-- Not modelled: of src/server.rs the routes, the middleware, control_service_status, the model-info and
-- API forwarding and the JSON encodings; of src/service.rs backfill_missing_headers and the construction
-- of the service; of src/config.rs the renaming of the legacy directory in Config::load and file
-- permissions; src/git.rs and src/hf.rs, left for later, and the control tools, which parse arguments,
-- print, and call HTTP. Timing, log lines, locks that no two steps
-- contend for, the wait for room in a full channel, the rejections of axum's extractors, and the counters of
-- src/service.rs are left out, and in the cached stream also the deletion of a chunk whose checksum is
-- wrong and a client that leaves.
pub mod Prelude
pub mod Chunker
pub mod Metadata
pub mod Storage
pub mod Service
pub mod Session
pub mod Server
pub mod Config
pub mod Tests
