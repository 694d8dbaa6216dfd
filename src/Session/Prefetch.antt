-- ===== src/Session/Prefetch.antt =====
-- `cleanup_prefetches`, `compute_active_cursors` and `schedule_prefetches` of src/session.rs. The
-- spawned download of a scheduled chunk is its entry of `prefetch_inflight`.
pub mod Bounds
use hugrs.Prelude.{
  ℕ, zero, suc, ◌+◌, ◌-◌, ◌*◌, ◌/◌, Bool, true, false, ◌||◌, not, Option, none, some, List, [], ◌∷◌,
  if◌then◌else◌, min, max, leb, ◌==◌, length, select, sort_by,
}
use hugrs.Session.Ranges.{prefetch_budget}
use hugrs.Session.State.{Subscriber, Actor, contains, contains_key}
use hugrs.Session.Selection.{first_chunk, chunk_rounds}

unfoldable pub cleanup_prefetches : Actor → Actor
cleanup_prefetches a = record a {
  prefetch_inflight =
      select (λ idx. not (contains idx a.completed || contains_key idx a.cached_chunks))
        a.prefetch_inflight;
}

-- `(first..=last).find(..)`, with the rounds left and the current index.
abbrev pub next_open : ℕ → List ℕ → List ℕ → ℕ → Option ℕ
next_open zero completed inflight idx = none
next_open (suc n) completed inflight idx =
    if contains idx completed || contains idx inflight
    then next_open n completed inflight (idx + 1)
    else some idx

unfoldable pub cursors_of : ℕ → List ℕ → List ℕ → List Subscriber → List ℕ
cursors_of chunk_count completed inflight [] = []
cursors_of chunk_count completed inflight (s ∷ ss) =
    let rest = cursors_of chunk_count completed inflight ss in
    elim (next_open (chunk_rounds chunk_count s) completed inflight (first_chunk s)) [
      | none ↦ rest
      | some next ↦ next ∷ rest
    ]

-- `Vec::dedup`, which removes an element that equals the one before it.
unfoldable pub dedup_from : ℕ → List ℕ → List ℕ
dedup_from x [] = []
dedup_from x (y ∷ ys) = let rest = dedup_from y ys in if y == x then rest else y ∷ rest

unfoldable pub dedup : List ℕ → List ℕ
unfolding dedup_from
dedup [] = []
dedup (x ∷ xs) = x ∷ dedup_from x xs

unfoldable pub compute_active_cursors : Actor → List ℕ
unfolding cursors_of dedup
compute_active_cursors a =
    dedup (sort_by leb (cursors_of a.chunk_count a.completed a.prefetch_inflight a.subscribers))

-- The body of the inner loop, for chunk `j`.
unfoldable pub schedule_one : ℕ → Actor → Actor
schedule_one j a =
    if contains j a.completed || contains j a.prefetch_inflight || contains_key j a.cached_chunks
    then a
    else record a { prefetch_inflight = j ∷ a.prefetch_inflight }

-- `for j in ..`, with the rounds left and the current index.
unfoldable pub schedule_range : ℕ → ℕ → Actor → Actor
unfolding schedule_one
schedule_range zero j a = a
schedule_range (suc n) j a = schedule_range n (j + 1) (schedule_one j a)

-- The rounds of `for j in (cursor + 1)..(cursor + 1 + per_cursor).min(chunk_count)`.
abbrev pub ahead : ℕ → ℕ → ℕ → ℕ
ahead chunk_count per_cursor cursor = min (cursor + 1 + per_cursor) chunk_count - (cursor + 1)

unfoldable pub schedule_all : ℕ → List ℕ → Actor → Actor
unfolding schedule_range
schedule_all per_cursor [] a = a
schedule_all per_cursor (cursor ∷ cursors) a =
    schedule_all per_cursor cursors
      (schedule_range (ahead a.chunk_count per_cursor cursor) (cursor + 1) a)

-- `(budget / cursors.len().max(1)).max(1)`
abbrev pub per_cursor_of : ℕ → ℕ → ℕ
unfolding prefetch_budget
per_cursor_of base cursors = max (prefetch_budget base cursors / max cursors 1) 1

unfoldable pub schedule_for : List ℕ → Actor → Actor
unfolding schedule_all
schedule_for [] a = a
schedule_for (c ∷ cs) a =
    schedule_all (per_cursor_of a.prefetch_budget_base (length (c ∷ cs))) (c ∷ cs) a

unfoldable pub schedule_prefetches : Actor → Actor
unfolding compute_active_cursors schedule_for
schedule_prefetches a = schedule_for (compute_active_cursors a) a
