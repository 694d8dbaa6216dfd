-- ===== src/Session/Run/Ending.antt =====
-- The turns that end an actor, and what becomes of the subscribers that are there.
use hugrs.Prelude.{
  ℕ, suc, ◌≡◌, refl, ap, String, true, ◌&&◌, not, none, some, List, [], All, Bool-cases, inl, inr,
  if◌then◌else◌, select,
}
use hugrs.Session.State.{Actor, Float64}
use hugrs.Session.Selection.{select_next_chunk}
use hugrs.Session.Selection.Soundness.{IsDone, select-none_iff}
use hugrs.Session.Forwarding.{clean_subscribers}
use hugrs.Session.Prefetch.{cleanup_prefetches}
use hugrs.Session.Run.{
  Turn, finished, spawn, clear, is_empty, prepare, pursue, choose, turn, run, continue_with,
}

-- A turn in which every chunk of every subscriber's range is completed already ends the actor,
-- sends nothing and leaves no subscriber.
pub turn_of_done_sends_nothing :
    (f : Float64) (t : Turn) (a : Actor)
    → All (IsDone a.chunk_count a.completed) (prepare t a).subscribers
    → (b : Actor) × (turn f t a ≡ finished b) × (b.sent ≡ a.sent) × (b.subscribers ≡ [])
unfolding turn choose prepare clean_subscribers cleanup_prefetches
turn_of_done_sends_nothing f t a done = (clear p, ends, refl, refl)
  where
    p : Actor
    p = prepare t a

    nothing : select_next_chunk f p ≡ none
    nothing = (select-none_iff f p).1 done

    ends : choose f t p ≡ finished (clear p)
    ends = elim (Bool-cases (is_empty p.subscribers && is_empty p.prefetch_inflight)) [
      | inl e ↦ rw e refl
      | inr n ↦ rw n (ap (λ x. pursue t x p) nothing)
    ]

-- An actor whose mailbox is empty at its first turn ends there, before any later arrival, and has
-- sent nothing.
pub run_of_empty_mailbox_ends :
    (f : Float64) (world : ℕ → Turn) (fuel total_size base served : ℕ) (cached : List (ℕ × String))
    → (world 0).arrivals ≡ []
    → (b : Actor) × (run f (suc fuel) world 0 (spawn total_size base served cached) ≡ some b)
      × (b.sent ≡ [])
unfolding run turn choose prepare clean_subscribers cleanup_prefetches
run_of_empty_mailbox_ends f world fuel total_size base served cached none_there =
    (clear p, ap (continue_with (run f fuel world 1)) ends, refl)
  where
    p : Actor
    p = prepare (world 0) (spawn total_size base served cached)

    ends : choose f (world 0) p ≡ finished (clear p)
    ends =
        ap
          (λ ss.
            if is_empty ss && true
            then finished (clear p)
            else pursue (world 0) (select_next_chunk f p) p)
          (ap (select (λ x. not ((world 0).closed_before x.channel))) none_there)
