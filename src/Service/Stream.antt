-- ===== src/Service/Stream.antt =====
-- `stream_cached_file` of src/service.rs: the task that reads the chunks of a cached range, with reads
-- ahead in a queue. A read ahead is its result; the deletion of a chunk whose checksum is wrong, which
-- ends the stream, and the timing of the reads are left out.
pub mod Order
pub mod Serving
pub mod Range
use hugrs.Prelude.{
  ℕ, zero, suc, ◌+◌, ◌-◌, ◌*◌, ◌/◌, String, Bool, true, false, not, ◌&&◌, ◌||◌, Option, none, some,
  List, [], ◌∷◌, ◌++◌, Result, ok, err, ◌>>=◌, ok_or, ltb, leb, str_eq, if◌then◌else◌, length,
  get_elem?, take, drop, min, slice,
}
use hugrs.Metadata.Tables.{File, FileChunk, Db}
use hugrs.Metadata.Files.{get_file_by_name}
use hugrs.Metadata.Links.{get_file_chunks}
use hugrs.Storage.Trait.{StorageBackend}
use hugrs.Session.Ranges.{chunk_size, Span, resolve_range}
use hugrs.Session.State.{Subscriber}
use hugrs.Session.Forwarding.{piece}

pub record Source : Type 1 where
  pub backend : StorageBackend
  pub sha256_hex : List ℕ → String
  pub verify_sha256 : Bool
  pub prefetch_depth : ℕ

-- The chunks `first_chunk..=last_chunk` of a range; a panic, where the slice is out of bounds.
unfoldable pub relevant_chunks : Span → List FileChunk → Option (List FileChunk)
relevant_chunks s file_chunks =
    let first = s.start / chunk_size in
    let last = min (s.last / chunk_size) (length file_chunks - 1) in
    if ltb (last + 1) first || ltb (length file_chunks) (last + 1)
    then none
    else some (slice first (last + 1) file_chunks)

module _ (src : Source) (store : src.backend.Store) where
  abbrev pub checked : String → Result String (List ℕ) → Result String (List ℕ)
  checked sha256 (err e) = err e
  checked sha256 (ok raw) =
      if src.verify_sha256 && not (str_eq (src.sha256_hex raw) sha256)
      then err "checksum mismatch"
      else ok raw

  unfoldable pub read : FileChunk → Result String (List ℕ)
  read ft = checked ft.sha256 (src.backend.get ft.sha256 store)

  abbrev pub enqueue :
      List (Result String (List ℕ)) → Option FileChunk → List (Result String (List ℕ))
  enqueue q none = q
  enqueue q (some ft) = q ++ read ft ∷ []

  -- `while prefetches.len() < prefetch_depth`, with fuel for the depth.
  unfoldable pub refill :
      ℕ → List FileChunk → ℕ → List (Result String (List ℕ)) → List (Result String (List ℕ))
  refill zero relevant i q = q
  refill (suc fuel) relevant i q =
      let more = refill fuel relevant i (enqueue q (get_elem? relevant (i + length q + 1))) in
      if ltb (length q) src.prefetch_depth && ltb (i + length q + 1) (length relevant)
      then more
      else q

  -- `prefetches.pop_front()`, else a read.
  abbrev pub front : FileChunk → List (Result String (List ℕ)) → Result String (List ℕ)
  front ft [] = read ft
  front ft (r ∷ q) = r

  abbrev pub behind : List (Result String (List ℕ)) → List (Result String (List ℕ))
  behind [] = []
  behind (r ∷ q) = q

  abbrev pub send :
      Result String (List ℕ)
      → (List ℕ → List ℕ)
      → (List ℕ → List (Result String (List ℕ)))
      → List (Result String (List ℕ))
  send (err e) cut rest = err e ∷ []
  send (ok bytes) cut rest = ok (cut bytes) ∷ rest bytes

  -- The loop over the chunks: what it sends. The part of a chunk is cut as `forward_chunk` cuts it.
  unfoldable pub emit :
      List FileChunk
      → Subscriber
      → ℕ
      → ℕ
      → List (Result String (List ℕ))
      → List FileChunk
      → List (Result String (List ℕ))
  unfolding refill read
  emit relevant s i offset q [] = []
  emit relevant s i offset q (ft ∷ rest) =
      send (front ft q) (λ bytes. piece offset bytes s)
        (λ bytes.
          emit relevant s (i + 1) (offset + length bytes)
            (refill src.prefetch_depth relevant i (behind q)) rest)

  -- The stream of a range, which starts at the offset of its first chunk.
  unfoldable pub stream_range : Span → List FileChunk → Option (List (Result String (List ℕ)))
  unfolding emit relevant_chunks
  stream_range s file_chunks = elim (relevant_chunks s file_chunks) [
    | none ↦ none
    | some relevant ↦ some (
        emit relevant (record { start = s.start; last = s.last; channel = 0 }) 0
          (s.start / chunk_size * chunk_size) [] relevant)
  ]
