-- ===== src/Session/Prefetch/Bounds.antt =====
-- What `schedule_prefetches` may start, and what it leaves alone.
use hugrs.Prelude.{
  ℕ, zero, suc, ◌+◌, ◌≤◌, ◌<◌, ◌≡◌, refl, ◌∙◌, false, ◌||◌, List, [], ◌∷◌, ◌⊎◌, Bool-cases, inl,
  inr, All, arith, dec_lt,
}
use hugrs.Session.State.{Actor, contains, contains_key}
use hugrs.Session.Prefetch.{
  schedule_one, schedule_range, schedule_all, schedule_for, schedule_prefetches, ahead,
  compute_active_cursors,
}

-- An actor is the given one, but for the prefetches in flight.
pub record OnlyPrefetches (a b : Actor) : Type 0 where
  pub keeps_total : b.total_size ≡ a.total_size
  pub keeps_count : b.chunk_count ≡ a.chunk_count
  pub keeps_base : b.prefetch_budget_base ≡ a.prefetch_budget_base
  pub keeps_subscribers : b.subscribers ≡ a.subscribers
  pub keeps_completed : b.completed ≡ a.completed
  pub keeps_sent : b.sent ≡ a.sent
  pub keeps_served : b.served_bytes ≡ a.served_bytes

-- A chunk in flight is one of the file that is not completed.
abbrev pub IsOpen : Actor → ℕ → Type 0
IsOpen a j = (j < a.chunk_count) × (contains j a.completed ≡ false)

abbrev pub InFlightOpen : Actor → Type 0
InFlightOpen a = All (IsOpen a) a.prefetch_inflight

schedule_one-only : (j : ℕ) (a : Actor) → OnlyPrefetches a (schedule_one j a)
unfolding schedule_one
schedule_one-only j a = record {
  keeps_total = ground arith;
  keeps_count = ground arith;
  keeps_base = ground arith;
  keeps_subscribers = ground arith;
  keeps_completed = ground arith;
  keeps_sent = ground arith;
  keeps_served = ground arith;
}

only_trans : (a b c : Actor) → OnlyPrefetches a b → OnlyPrefetches b c → OnlyPrefetches a c
only_trans a b c h k = record {
  keeps_total = k.keeps_total ∙ h.keeps_total;
  keeps_count = k.keeps_count ∙ h.keeps_count;
  keeps_base = k.keeps_base ∙ h.keeps_base;
  keeps_subscribers = k.keeps_subscribers ∙ h.keeps_subscribers;
  keeps_completed = k.keeps_completed ∙ h.keeps_completed;
  keeps_sent = k.keeps_sent ∙ h.keeps_sent;
  keeps_served = k.keeps_served ∙ h.keeps_served;
}

only_refl : (a : Actor) → OnlyPrefetches a a
only_refl a = record {
  keeps_total = refl;
  keeps_count = refl;
  keeps_base = refl;
  keeps_subscribers = refl;
  keeps_completed = refl;
  keeps_sent = refl;
  keeps_served = refl;
}

schedule_range-only : (n j : ℕ) (a : Actor) → OnlyPrefetches a (schedule_range n j a)
unfolding schedule_range
schedule_range-only zero j a = only_refl a
schedule_range-only (suc n) j a =
    only_trans a (schedule_one j a) _ (schedule_one-only j a)
      (schedule_range-only n (j + 1) (schedule_one j a))

schedule_all-only : (p : ℕ) (cs : List ℕ) (a : Actor) → OnlyPrefetches a (schedule_all p cs a)
unfolding schedule_all
schedule_all-only p [] a = only_refl a
schedule_all-only p (c ∷ cs) a =
    only_trans a (schedule_range (ahead a.chunk_count p c) (c + 1) a) _
      (schedule_range-only (ahead a.chunk_count p c) (c + 1) a)
      (schedule_all-only p cs (schedule_range (ahead a.chunk_count p c) (c + 1) a))

schedule_for-only : (cs : List ℕ) (a : Actor) → OnlyPrefetches a (schedule_for cs a)
unfolding schedule_for
schedule_for-only [] a = only_refl a
schedule_for-only (c ∷ cs) a = schedule_all-only _ (c ∷ cs) a

pub schedule_prefetches-only : (a : Actor) → OnlyPrefetches a (schedule_prefetches a)
unfolding schedule_prefetches
schedule_prefetches-only a = schedule_for-only (compute_active_cursors a) a

schedule_one-open :
    (j : ℕ) (a : Actor) → j < a.chunk_count → InFlightOpen a → InFlightOpen (schedule_one j a)
unfolding schedule_one
schedule_one-open j a lt h = elim (Bool-cases (contains j a.completed)) [
  | inl done ↦ rw done h
  | inr open_chunk ↦
      elim (Bool-cases (contains j a.prefetch_inflight || contains_key j a.cached_chunks)) [
        | inl there ↦ rw (open_chunk, there) h
        | inr new ↦ rw (open_chunk, new) ((lt, open_chunk), h)
      ]
]

schedule_range-open :
    (n j : ℕ) (a : Actor)
    → j + n ≤ a.chunk_count ⊎ n ≡ 0
    → InFlightOpen a
    → InFlightOpen (schedule_range n j a)
unfolding schedule_range
schedule_range-open zero j a le h = h
schedule_range-open (suc n) j a le h =
    schedule_range-open n (j + 1) (schedule_one j a)
      (inl (ground (arith, (schedule_one-only j a).keeps_count)))
      (schedule_one-open j a (ground arith) h)

schedule_all-open :
    (p : ℕ) (cs : List ℕ) (a : Actor) → InFlightOpen a → InFlightOpen (schedule_all p cs a)
unfolding schedule_all
schedule_all-open p [] a h = h
schedule_all-open p (c ∷ cs) a h =
    schedule_all-open p cs (schedule_range (ahead a.chunk_count p c) (c + 1) a)
      (schedule_range-open (ahead a.chunk_count p c) (c + 1) a (inside c p a.chunk_count) h)
  where
    inside : (c p k : ℕ) → c + 1 + ahead k p c ≤ k ⊎ ahead k p c ≡ 0
    inside c p k = elim (dec_lt (c + 1) k) [
      | yes lt ↦ inl (omega arith)
      | no ge ↦ inr (omega arith)
    ]

schedule_for-open : (cs : List ℕ) (a : Actor) → InFlightOpen a → InFlightOpen (schedule_for cs a)
unfolding schedule_for
schedule_for-open [] a h = h
schedule_for-open (c ∷ cs) a h = schedule_all-open _ (c ∷ cs) a h

-- When every chunk in flight is a chunk of the file that is not completed, scheduling prefetches
-- starts only such chunks, and changes no other field of the actor.
pub schedule_prefetches-InFlightOpen :
    (a : Actor)
    → InFlightOpen a
    → InFlightOpen (schedule_prefetches a) × OnlyPrefetches a (schedule_prefetches a)
unfolding schedule_prefetches
schedule_prefetches-InFlightOpen a h =
    (schedule_for-open (compute_active_cursors a) a h, schedule_prefetches-only a)
