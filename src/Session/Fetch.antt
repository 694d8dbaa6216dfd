-- ===== src/Session/Fetch.antt =====
-- `ChunkReader` of src/session.rs: `read_cached_chunk` and `fetch_chunk`. The chunk store, the hash
-- and the replies of the upstream server are parameters; waits and log lines are left out.
pub mod Attempts
pub mod Cached
pub mod Saved
use Prim.Native.String.{slice as str_slice, ◌++◌ as str_append}
use hugrs.Prelude.{
  ℕ, zero, suc, ◌+◌, ◌-◌, ◌*◌, ◌%◌, ◌^◌, ◌≤◌, String, Bool, true, false, not, ◌&&◌, Option, none,
  some, List, [], ◌∷◌, ◌++◌, Result, ok, err, ltb, leb, ◌==◌, str_eq, if◌then◌else◌, min, max,
  length, slice, find, select,
}
use hugrs.Storage.Trait.{StorageBackend}

pub record ChunkReader : Type 1 where
  pub backend : StorageBackend
  pub sha256_hex : List ℕ → String
  pub verify_sha256 : Bool
  pub chunk_retries : ℕ

pub record ChunkStoredEvent : Type 0 where
  pub sha256 : String
  pub path : String
  pub data_len : ℕ
  pub stored_size : ℕ
  pub file_id : ℕ
  pub chunk_idx : ℕ

-- What comes of `req.send()`: no response; or a status and what reading the body gives.
pub data Reply : Type 0 where
  send_failed : String → Reply
  replied : ℕ → Result String (List ℕ) → Reply

-- The errors of a fetch, in the order of the source.
pub data FetchError : Type 0 where
  request_error : String → FetchError
  server_error refused : ℕ → FetchError
  download_error : String → FetchError
  incomplete : ℕ → FetchError
  checksum_mismatch : String → FetchError
  put_error : String → FetchError

-- What an attempt comes to: bytes, a reason to try again, an error at once, or a slice out of bounds.
pub data Verdict : Type 0 where
  keep : List ℕ → Verdict
  retry give_up : FetchError → Verdict
  slice_panic : Verdict

-- The classes of a status, as the crate http documents them.
abbrev pub is_server_error : ℕ → Bool
is_server_error status = leb 500 status && ltb status 600

abbrev pub is_client_error : ℕ → Bool
is_client_error status = leb 400 status && ltb status 500

-- The bytes of `start..=last` from a body: cut out of a longer one with status 200, else as they are.
unfoldable pub accept : ℕ → ℕ → ℕ → List ℕ → Verdict
accept start last status full_data =
    let expected_len = last - start + 1 in
    let slice_end = min (last + 1) (length full_data) in
    if (status == 200) && ltb expected_len (length full_data)
    then if ltb slice_end start then slice_panic else keep (slice start slice_end full_data)
    else if length full_data == expected_len
    then keep full_data
    else retry (incomplete (length full_data))

abbrev pub read_body : ℕ → ℕ → ℕ → Result String (List ℕ) → Verdict
unfolding accept
read_body start last status (err e) = retry (download_error e)
read_body start last status (ok full_data) = accept start last status full_data

unfoldable pub judge : ℕ → ℕ → Reply → Verdict
unfolding read_body
judge start last (send_failed e) = retry (request_error e)
judge start last (replied status body) =
    if is_server_error status
    then retry (server_error status)
    else if is_client_error status
    then give_up (refused status)
    else read_body start last status body

pub data Outcome : Type 0 where
  fetched : List ℕ → Outcome
  failed : FetchError → Outcome
  panicked : Outcome

-- The outcome of the attempts, and how many requests were sent.
abbrev pub after_attempt : ℕ → ℕ → Option (Outcome × ℕ) → Verdict → Option (Outcome × ℕ)
after_attempt max_retries attempt next (keep bytes) = some (fetched bytes, attempt)
after_attempt max_retries attempt next (retry e) =
    if leb max_retries attempt then some (failed e, attempt) else next
after_attempt max_retries attempt next (give_up e) = some (failed e, attempt)
after_attempt max_retries attempt next slice_panic = some (panicked, attempt)

-- The loop, from the attempts that are made already; `none` when the fuel ends before it.
unfoldable pub attempts : ℕ → (ℕ → Reply) → ℕ → ℕ → ℕ → ℕ → Option (Outcome × ℕ)
unfolding judge
attempts max_retries http start last zero attempt = none
attempts max_retries http start last (suc fuel) attempt =
    let next = attempts max_retries http start last fuel (attempt + 1) in
    after_attempt max_retries (attempt + 1) next (judge start last (http (attempt + 1)))

-- The map of cached chunks of a file.
abbrev pub lookup : ℕ → List (ℕ × String) → Option String
lookup idx m = elim (find (λ e. e.0 == idx) m) [ none ↦ none | some e ↦ some e.1 ]

abbrev pub remove : ℕ → List (ℕ × String) → List (ℕ × String)
remove idx = select (λ e. not (e.0 == idx))

abbrev pub insert : ℕ → String → List (ℕ × String) → List (ℕ × String)
insert idx sha256 m = (idx, sha256) ∷ remove idx m

abbrev pub path_of : String → String
path_of sha256 =
    str_append (str_slice sha256 0 2)
      (str_append "/" (str_append (str_slice sha256 2 4) (str_append "/" sha256)))

abbrev pub differs : Option String → String → Bool
differs none sha256 = false
differs (some expected) sha256 = not (str_eq expected sha256)

abbrev pub or_false : Result String Bool → Bool
or_false (ok b) = b
or_false (err e) = false

module _ (r : ChunkReader) where
  pub record FetchState : Type 0 where
    pub store : r.backend.Store
    pub cached_chunks : List (ℕ × String)
    pub fetched_bytes : ℕ
    pub events : List ChunkStoredEvent

  -- `backend.put`, unless the chunk is there: the bytes that the store took.
  unfoldable pub put_new : String → List ℕ → r.backend.Store → Result String ℕ × r.backend.Store
  put_new sha256 bytes s =
      if or_false (r.backend.has_key sha256 s)
      then (ok (length bytes), s)
      else r.backend.put sha256 bytes s

  -- The end of `fetch_chunk`: the map and the event.
  unfoldable pub record_chunk :
      ℕ
      → ℕ
      → String
      → List ℕ
      → Result String ℕ × r.backend.Store
      → FetchState
      → Outcome × FetchState
  record_chunk file_id idx sha256 bytes (err e, s) st =
      (failed (put_error e), record st { store = s })
  record_chunk file_id idx sha256 bytes (ok stored, s) st = (
    fetched bytes,
    record st {
      store = s;
      cached_chunks = insert idx sha256 st.cached_chunks;
      events =
          record {
            sha256 = sha256;
            path = path_of sha256;
            data_len = length bytes;
            stored_size = stored;
            file_id = file_id;
            chunk_idx = idx;
          }
          ∷ st.events;
    },
  )

  -- What `fetch_chunk` does with the bytes it has.
  unfoldable pub save : ℕ → ℕ → List ℕ → FetchState → Outcome × FetchState
  unfolding record_chunk put_new
  save file_id idx bytes st =
      let sha256 = r.sha256_hex bytes in
      let counted = record st { fetched_bytes = (st.fetched_bytes + length bytes) % 2 ^ 64 } in
      if r.verify_sha256 && differs (lookup idx counted.cached_chunks) sha256
      then (failed (checksum_mismatch sha256), counted)
      else record_chunk file_id idx sha256 bytes (put_new sha256 bytes counted.store) counted

  unfoldable pub finish : ℕ → ℕ → Outcome → FetchState → Outcome × FetchState
  unfolding save
  finish file_id idx (fetched bytes) st = save file_id idx bytes st
  finish file_id idx (failed e) st = (failed e, st)
  finish file_id idx panicked st = (panicked, st)

  abbrev pub max_retries_of : ℕ
  max_retries_of = max r.chunk_retries 1

  -- `fetch_chunk`, with fuel for its attempts.
  unfoldable pub fetch_chunk :
      (ℕ → Reply) → ℕ → ℕ → ℕ → ℕ → ℕ → FetchState → Option ((Outcome × FetchState) × ℕ)
  unfolding attempts finish
  fetch_chunk http fuel file_id idx start last st =
      elim (attempts max_retries_of http start last fuel 0) [
        | none ↦ none
        | some (o, n) ↦ some (finish file_id idx o st, n)
      ]

  -- The verification of a chunk that was read, by its hash and length.
  abbrev pub verified : String → Option ℕ → List ℕ → Bool
  verified sha256 none raw = str_eq (r.sha256_hex raw) sha256
  verified sha256 (some expected) raw = str_eq (r.sha256_hex raw) sha256 && (length raw == expected)

  abbrev pub check_read :
      String
      → Option ℕ
      → Result String (List ℕ)
      → r.backend.Store
      → Option (List ℕ) × r.backend.Store
  check_read sha256 expected (err e) s = (none, s)
  check_read sha256 expected (ok raw) s =
      if not r.verify_sha256
      then (some raw, s)
      else if verified sha256 expected raw
      then (some raw, s)
      else (none, (r.backend.delete sha256 s).1)

  unfoldable pub read_cached_chunk :
      String → Option ℕ → r.backend.Store → Option (List ℕ) × r.backend.Store
  read_cached_chunk sha256 expected s = check_read sha256 expected (r.backend.get sha256 s) s
