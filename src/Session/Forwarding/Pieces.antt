-- ===== src/Session/Forwarding/Pieces.antt =====
-- What a subscriber gets of a chunk, in terms of the file.
use hugrs.Prelude.{
  ℕ, ◌+◌, ◌-◌, ◌≤◌, ◌<◌, ◌≡◌, ◌∙◌, false, ◌||◌, List, min, max, ltb, length, slice, slice-slice,
  length-slice, slice_at, arith,
}
use hugrs.Session.State.{Subscriber}
use hugrs.Session.Forwarding.{piece, misses}

-- A chunk that holds the bytes from `first` to before `stop` of the file, inside the file, and
-- meets a range whose start is not past its end, gives the subscriber the bytes of its range that
-- lie in the chunk.
pub piece-slice :
    (file : List ℕ) (first stop : ℕ) (s : Subscriber)
    → first < stop
    → stop ≤ length file
    → s.start ≤ s.last
    → misses first (slice first stop file) s ≡ false
    → piece first (slice first stop file) s ≡ slice (max s.start first) (min (s.last + 1) stop) file
piece-slice file first stop s lt inside ordered meets =
    slice-slice _ _ first stop file (ground (arith, len)) (ground (arith, len))
    ∙ slice_at _ _ _ _ file (ground (arith, len)) (ground (arith, len))
  where
    len : length (slice first stop file) ≡ stop - first
    len = length-slice first stop file (omega arith) inside

pub misses_iff :
    (file : List ℕ) (first stop : ℕ) (s : Subscriber)
    → first < stop
    → stop ≤ length file
    → misses first (slice first stop file) s ≡ (ltb (stop - 1) s.start || ltb s.last first)
misses_iff file first stop s lt inside =
    ground (arith, length-slice first stop file (omega arith) inside)
