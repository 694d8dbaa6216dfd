-- ===== src/Session/Selection.antt =====
-- `select_next_chunk` of src/session.rs.
pub mod Soundness
pub mod Order
use hugrs.Prelude.{
  ℕ, zero, suc, ◌+◌, ◌-◌, ◌*◌, ◌/◌, Bool, true, false, Option, none, some, List, [], ◌∷◌, leb,
  if◌then◌else◌, min, max,
}
use hugrs.Session.Ranges.{chunk_size}
use hugrs.Session.State.{Subscriber, Actor, Float64, contains}

-- The chunks of a subscriber's range, the last one held to the chunks of the file.
abbrev pub first_chunk : Subscriber → ℕ
first_chunk s = s.start / chunk_size

abbrev pub last_chunk : ℕ → Subscriber → ℕ
last_chunk chunk_count s = min (s.last / chunk_size) (chunk_count - 1)

-- The number of rounds of `for idx in first..=last`.
abbrev pub chunk_rounds : ℕ → Subscriber → ℕ
chunk_rounds chunk_count s = suc (last_chunk chunk_count s) - first_chunk s

-- How far the chunk begins behind the start of the range.
abbrev pub distance : Subscriber → ℕ → ℕ
distance s idx = if leb s.start (idx * chunk_size) then idx * chunk_size - s.start else 0

abbrev pub range_len : Subscriber → ℕ
range_len s = max (s.last - s.start) 1

module _ (f : Float64) where
  abbrev pub Best : Type 0
  Best = Option (ℕ × f.Float)

  abbrev pub urgency : Subscriber → ℕ → f.Float
  urgency s idx = f.div (f.of_u64 (distance s idx)) (f.of_u64 (range_len s))

  abbrev pub is_better : f.Float → Best → Bool
  is_better u none = true
  is_better u (some (_, best)) = f.lt u best

  abbrev pub consider : List ℕ → Subscriber → ℕ → Best → Best
  consider completed s idx best =
      if contains idx completed
      then best
      else if is_better (urgency s idx) best
      then some (idx, urgency s idx)
      else best

  -- The inner loop, with the rounds left and the current index.
  unfoldable pub scan : ℕ → List ℕ → Subscriber → ℕ → Best → Best
  scan zero completed s idx best = best
  scan (suc n) completed s idx best = scan n completed s (idx + 1) (consider completed s idx best)

  unfoldable pub scan_all : ℕ → List ℕ → List Subscriber → Best → Best
  unfolding scan
  scan_all chunk_count completed [] best = best
  scan_all chunk_count completed (s ∷ ss) best =
      scan_all chunk_count completed ss
        (scan (chunk_rounds chunk_count s) completed s (first_chunk s) best)

  abbrev pub index_of : Best → Option ℕ
  index_of none = none
  index_of (some (idx, _)) = some idx

  unfoldable pub select_next_chunk : Actor → Option ℕ
  unfolding scan_all
  select_next_chunk a = index_of (scan_all a.chunk_count a.completed a.subscribers none)
