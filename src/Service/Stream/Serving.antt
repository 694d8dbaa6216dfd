-- ===== src/Service/Stream/Serving.antt =====
-- What the client of a cached range reads.
use hugrs.Prelude.{
  ℕ, suc, ◌+◌, ◌*◌, ◌/◌, ◌≤◌, ◌<◌, ◌≡◌, refl, sym, ap, ◌∙◌, String, List, [], ◌∷◌, Result, ok, err,
  length, slice, slice_at, slice_empty, length-slice, append-nil, min, arith,
}
use hugrs.Metadata.Tables.{FileChunk}
use hugrs.Session.Ranges.{chunk_size, chunk_first, chunk_last}
use hugrs.Session.State.{Subscriber}
use hugrs.Session.Forwarding.{piece}
use hugrs.Session.Run.Stream.{read_body, read_body_assoc}
use hugrs.Session.Run.Delivery.{chunk_of, grows}
use hugrs.Service.Stream.{Source, read, send, emit}
use hugrs.Service.Stream.Order.{plain, emit_reads_in_turn}

-- The bytes up to the first error: the error, where there is one.
unfoldable pub gather : List (Result String (List ℕ)) → Result String (List ℕ)
gather [] = ok []
gather (r ∷ rs) = read_body r (gather rs)

-- The store reads the chunks of the list as the chunks of the file from `k` on.
abbrev pub HoldsFrom : (src : Source) → src.backend.Store → List ℕ → ℕ → List FileChunk → Type 0
HoldsFrom src store file k [] = Unit
HoldsFrom src store file k (ft ∷ fts) =
    (read src store ft ≡ ok (chunk_of file k)) × HoldsFrom src store file (k + 1) fts

module _ (src : Source) (store : src.backend.Store) (file : List ℕ) (s : Subscriber)
    (ordered : s.start ≤ s.last) (inside : s.last < length file) where
  -- A chunk that is not the last one of the range is full.
  next_offset :
      (k : ℕ) (fts : List FileChunk)
      → k + suc (length fts) ≡ s.last / chunk_size + 1
      → plain src store s (k * chunk_size + length (chunk_of file k)) fts
        ≡ plain src store s ((k + 1) * chunk_size) fts
  unfolding plain
  next_offset k [] e = refl
  next_offset k (ft ∷ fts) e = ap (λ o. plain src store s o (ft ∷ fts)) full
    where
      full : k * chunk_size + length (chunk_of file k) ≡ (k + 1) * chunk_size
      full = omega (
        arith,
        length-slice (chunk_first k) (chunk_last (length file) k + 1) file (omega arith)
            (omega arith),
      )

  plain-serves :
      (k : ℕ) (fts : List FileChunk)
      → s.start / chunk_size ≤ k
      → k + length fts ≡ s.last / chunk_size + 1
      → HoldsFrom src store file k fts
      → read_body
          (ok (slice s.start (min (k * chunk_size) (s.last + 1)) file))
          (gather (plain src store s (k * chunk_size) fts))
        ≡ ok (slice s.start (s.last + 1) file)
  unfolding plain gather
  plain-serves k [] lo end h = ap ok (
      append-nil _
      ∙ slice_at s.start (min (k * chunk_size) (s.last + 1)) s.start (s.last + 1) file refl
          (omega arith))
  plain-serves k (ft ∷ fts) lo end h =
      ap (λ r. read_body (ok before) (gather (send src store r cut rest))) h.0
      ∙ read_body_assoc (ok before) (ok (cut (chunk_of file k))) (gather (rest (chunk_of file k)))
      ∙ ap (λ x. read_body (ok x) (gather (rest (chunk_of file k))))
          (grows file s ordered inside k lo (omega arith))
      ∙ ap
          (λ x.
            read_body (ok (slice s.start (min ((k + 1) * chunk_size) (s.last + 1)) file))
              (gather x))
          (next_offset k fts end)
      ∙ plain-serves (k + 1) fts (omega arith) (omega arith) h.1
    where
      before : List ℕ
      before = slice s.start (min (k * chunk_size) (s.last + 1)) file

      cut : List ℕ → List ℕ
      cut = λ bytes. piece (k * chunk_size) bytes s

      rest : List ℕ → List (Result String (List ℕ))
      rest = λ bytes. plain src store s (k * chunk_size + length bytes) fts

-- For a range inside a file whose chunks of the range the store reads as they are in the file, the
-- stream of the cached range, with any depth of reading ahead, gives exactly the bytes of the range.
pub emit_serves_range :
    (src : Source) (store : src.backend.Store) (file : List ℕ) (s : Subscriber)
    (relevant : List FileChunk)
    → s.start ≤ s.last
    → s.last < length file
    → s.start / chunk_size + length relevant ≡ s.last / chunk_size + 1
    → HoldsFrom src store file (s.start / chunk_size) relevant
    → gather (emit src store relevant s 0 (s.start / chunk_size * chunk_size) [] relevant)
      ≡ ok (slice s.start (s.last + 1) file)
emit_serves_range src store file s relevant ordered inside covers holds =
    ap gather (emit_reads_in_turn src store s (s.start / chunk_size * chunk_size) relevant)
    ∙ sym (none_before (gather (plain src store s (s.start / chunk_size * chunk_size) relevant)))
    ∙ ap
        (λ x.
          read_body (ok x)
            (gather (plain src store s (s.start / chunk_size * chunk_size) relevant)))
        (sym (
          slice_empty s.start (min (s.start / chunk_size * chunk_size) (s.last + 1)) file
            (omega arith)))
    ∙ plain-serves src store file s ordered inside (s.start / chunk_size) relevant (omega arith)
        covers holds
  where
    none_before : (r : Result String (List ℕ)) → read_body (ok []) r ≡ r
    none_before (ok bytes) = refl
    none_before (err e) = refl
