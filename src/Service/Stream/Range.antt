-- ===== src/Service/Stream/Range.antt =====
-- `stream_cached_file` from the request on: the range, its chunks and their stream.
use hugrs.Prelude.{
  ℕ, zero, suc, ◌+◌, ◌-◌, ◌*◌, ◌/◌, ◌≤◌, ◌<◌, ◌≡◌, refl, ap, ◌∙◌, subst, String, false, ◌||◌, none,
  some, List, [], ◌∷◌, Result, ok, ltb, if◌then◌else◌, length, take, drop, slice, length-slice, min,
  arith,
}
use hugrs.Metadata.Tables.{FileChunk}
use hugrs.Session.Ranges.{
  chunk_size, chunks_of, Range, Span, IsServed, resolve_range, resolve_range-IsServed,
}
use hugrs.Session.State.{Subscriber}
use hugrs.Service.Stream.{Source, emit, relevant_chunks, stream_range}
use hugrs.Service.Stream.Serving.{gather, HoldsFrom, emit_serves_range}

module _ (src : Source) (store : src.backend.Store) (file : List ℕ) where
  HoldsFrom-take :
      (n k : ℕ) (fts : List FileChunk)
      → HoldsFrom src store file k fts
      → HoldsFrom src store file k (take n fts)
  HoldsFrom-take zero k fts h = tt
  HoldsFrom-take (suc n) k [] h = tt
  HoldsFrom-take (suc n) k (ft ∷ fts) h = (h.0, HoldsFrom-take n (k + 1) fts h.1)

  HoldsFrom-drop :
      (n k : ℕ) (fts : List FileChunk)
      → HoldsFrom src store file k fts
      → HoldsFrom src store file (k + n) (drop n fts)
  HoldsFrom-drop zero k fts h = subst (λ i. HoldsFrom src store file i fts) (plus_zero k) h
    where
      plus_zero : (i : ℕ) → i ≡ i + 0
      plus_zero i = omega arith
  HoldsFrom-drop (suc n) k [] h = tt
  HoldsFrom-drop (suc n) k (ft ∷ fts) h =
      subst (λ i. HoldsFrom src store file i (drop n fts)) (shift k n)
        (HoldsFrom-drop n (k + 1) fts h.1)
    where
      shift : (i j : ℕ) → i + 1 + j ≡ i + suc j
      shift i j = omega arith

  HoldsFrom-slice :
      (a b : ℕ) (fts : List FileChunk)
      → HoldsFrom src store file 0 fts
      → HoldsFrom src store file a (slice a b fts)
  HoldsFrom-slice a b fts h =
      subst (λ i. HoldsFrom src store file i (slice a b fts)) (zero_plus a)
        (HoldsFrom-take (b - a) (0 + a) (drop a fts) (HoldsFrom-drop a 0 fts h))
    where
      zero_plus : (i : ℕ) → 0 + i ≡ i
      zero_plus i = omega arith

relevant_chunks-inside :
    (s : Span) (fts : List FileChunk)
    → s.start / chunk_size ≤ s.last / chunk_size + 1
    → s.last / chunk_size + 1 ≤ length fts
    → relevant_chunks s fts ≡ some (slice (s.start / chunk_size) (s.last / chunk_size + 1) fts)
unfolding relevant_chunks
relevant_chunks-inside s fts forward enough =
    ap
      (λ x.
        if ltb (x + 1) (s.start / chunk_size) || ltb (length fts) (x + 1)
        then none
        else some (slice (s.start / chunk_size) (x + 1) fts))
      last_in
    ∙ rw in_bounds refl
  where
    last_in : min (s.last / chunk_size) (length fts - 1) ≡ s.last / chunk_size
    last_in = omega (arith, enough)

    in_bounds :
        (ltb (s.last / chunk_size + 1) (s.start / chunk_size)
          || ltb (length fts) (s.last / chunk_size + 1))
        ≡ false
    in_bounds = ground (arith, enough, forward)

-- A file whose chunks are all in the list, and which the store reads as they are in the file: a request
-- for a range that is accepted does not panic, and its stream gives exactly the bytes of the range,
-- with any depth of reading ahead.
pub stream_range_serves :
    (src : Source) (store : src.backend.Store) (file : List ℕ) (file_chunks : List FileChunk)
    (r : Range) (s : Span)
    → resolve_range (length file) r ≡ ok s
    → length file_chunks ≡ chunks_of (length file)
    → HoldsFrom src store file 0 file_chunks
    → (sent : List (Result String (List ℕ))) × (stream_range src store s file_chunks ≡ some sent)
      × (gather sent ≡ ok (slice s.start (s.last + 1) file))
unfolding stream_range
stream_range_serves src store file file_chunks r s e all holds = (
  emit src store wanted reader 0 (first * chunk_size) [] wanted,
  rw (stream_range, relevant_chunks-inside s file_chunks forward enough) refl,
  emit_serves_range src store file reader wanted ok_range.ordered ok_range.inside covers
      (HoldsFrom-slice src store file first (last + 1) file_chunks holds),
)
  where
    ok_range : IsServed (length file) r s
    ok_range = resolve_range-IsServed (length file) r s e

    reader : Subscriber
    reader = record { start = s.start; last = s.last; channel = 0 }

    first : ℕ
    first = s.start / chunk_size

    last : ℕ
    last = s.last / chunk_size

    wanted : List FileChunk
    wanted = slice first (last + 1) file_chunks

    enough : last + 1 ≤ length file_chunks
    enough = bound s.last (length file) (length file_chunks) ok_range.inside all
      where
        bound : (l n c : ℕ) → l < n → c ≡ chunks_of n → l / chunk_size + 1 ≤ c
        bound l n c h k = omega arith

    forward : first ≤ last + 1
    forward = bound s.start s.last ok_range.ordered
      where
        bound : (a b : ℕ) → a ≤ b → a / chunk_size ≤ b / chunk_size + 1
        bound a b h = omega arith

    covers : first + length wanted ≡ last + 1
    covers = omega (arith, forward, length-slice first (last + 1) file_chunks forward enough)
