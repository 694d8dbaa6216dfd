-- ===== src/Session/Run/Single.antt =====
-- A session with one subscriber: what the client reads, and that the actor ends.
use hugrs.Prelude.{
  ℕ, zero, suc, ◌+◌, ◌*◌, ◌/◌, ◌≤◌, ◌<◌, ◌≡◌, refl, sym, ap, ◌∙◌, subst, String, false, ◌&&◌, not,
  none, some, List, [], ◌∷◌, ◌++◌, ok, length, select, slice, slice_empty, slice_at, All, min, max,
  if◌then◌else◌, arith, dec_lt,
}
use hugrs.Session.Ranges.{chunk_size, chunks_of}
use hugrs.Session.State.{Subscriber, Actor, Float64, IsMonotone}
use hugrs.Session.Selection.{first_chunk, last_chunk, select_next_chunk}
use hugrs.Session.Selection.Soundness.{IsDone, select-none_iff}
use hugrs.Session.Selection.Order.{select-first}
use hugrs.Session.Forwarding.{clean_subscribers}
use hugrs.Session.Prefetch.{cleanup_prefetches, schedule_prefetches}
use hugrs.Session.Prefetch.Bounds.{OnlyPrefetches, schedule_prefetches-only}
use hugrs.Session.Run.{
  received, Turn, finished, running, spawn, clear, deliver, download_and_forward, is_empty, prepare,
  promote, pursue, choose, continue_with, settle, drive, turn, run,
}
use hugrs.Session.Run.Stream.{stream_of}
use hugrs.Session.Run.Delivery.{chunk_of, Serving, deliver-Serving, Serving-same}

-- The world sends one subscriber, whose receiver stays, and every download gives its chunk.
pub record IsAlone (file : List ℕ) (s : Subscriber) (world : ℕ → Turn) : Type 0 where
  pub first : (world 0).arrivals ≡ s ∷ []
  pub later : (t : ℕ) → (world (t + 1)).arrivals ≡ []
  pub open_before : (t : ℕ) → (world t).closed_before s.channel ≡ false
  pub open_after : (t : ℕ) → (world t).closed_after s.channel ≡ false
  pub good : (t idx : ℕ) → (world t).download idx ≡ received (chunk_of file idx)

module _ (file : List ℕ) (s : Subscriber) (ordered : s.start ≤ s.last)
    (inside : s.last < length file) where
  pub prepare-alone :
      (t : Turn) (a : Actor)
      → a.subscribers ++ t.arrivals ≡ s ∷ []
      → t.closed_before s.channel ≡ false
      → (prepare t a).subscribers ≡ s ∷ []
  unfolding prepare clean_subscribers cleanup_prefetches
  prepare-alone t a e is_open =
      ap (select (λ x. not (t.closed_before x.channel))) e ∙ rw is_open refl

  pub prepare-Serving :
      (t : Turn) (k : ℕ) (a : Actor) → Serving file s k a → Serving file s k (prepare t a)
  unfolding prepare clean_subscribers cleanup_prefetches
  prepare-Serving t k a h =
      Serving-same file s ordered inside k a (prepare t a) refl refl refl refl h

  -- A chunk is driven: it is delivered, and the actor goes on.
  drive-serves :
      (t : Turn) (k : ℕ) (a : Actor)
      → first_chunk s ≤ k
      → k ≤ s.last / chunk_size
      → t.closed_after s.channel ≡ false
      → t.download k ≡ received (chunk_of file k)
      → a.subscribers ≡ s ∷ []
      → Serving file s k a
      → (b : Actor) × (drive t k a ≡ running b)
        × Serving file s (k + 1) b
        × (b.subscribers ≡ s ∷ [])
  unfolding drive download_and_forward promote settle
  drive-serves t k a lo hi is_open good alone h =
      (schedule_prefetches c, ran, later, only.keeps_subscribers ∙ alone)
    where
      c : Actor
      c = record (deliver t.closed_after k (chunk_of file k) (promote k a)) {
        cached_chunks = t.cached_after;
      }

      only : OnlyPrefetches c (schedule_prefetches c)
      only = schedule_prefetches-only c

      ran : settle t (download_and_forward t k (promote k a)) ≡ running (schedule_prefetches c)
      ran = rw (download_and_forward, good) refl

      promoted : Serving file s k (promote k a)
      promoted = Serving-same file s ordered inside k a (promote k a) refl refl refl refl h

      later : Serving file s (k + 1) (schedule_prefetches c)
      later =
          Serving-same file s ordered inside (k + 1) c (schedule_prefetches c) only.keeps_total
            only.keeps_count only.keeps_completed only.keeps_sent
            (Serving-same file s ordered inside (k + 1)
              (deliver t.closed_after k (chunk_of file k) (promote k a)) c refl refl refl refl
              (deliver-Serving file s ordered inside t.closed_after k (promote k a) lo hi is_open
                alone promoted))

  pub choose-pursues :
      (f : Float64) (t : Turn) (a : Actor)
      → a.subscribers ≡ s ∷ []
      → choose f t a ≡ pursue t (select_next_chunk f a) a
  unfolding choose
  choose-pursues f t a alone =
      ap
        (λ ss.
          if is_empty ss && is_empty a.prefetch_inflight
          then finished (clear a)
          else pursue t (select_next_chunk f a) a)
        alone

  pub turn-serves :
      (f : Float64) (m : IsMonotone f) (t : Turn) (k : ℕ) (a : Actor)
      → first_chunk s ≤ k
      → k ≤ last_chunk (max (chunks_of (length file)) 1) s
      → t.closed_before s.channel ≡ false
      → t.closed_after s.channel ≡ false
      → t.download k ≡ received (chunk_of file k)
      → a.subscribers ++ t.arrivals ≡ s ∷ []
      → Serving file s k a
      → (b : Actor) × (turn f t a ≡ running b) × Serving file s (k + 1) b × (b.subscribers ≡ s ∷ [])
  unfolding turn
  turn-serves f m t k a lo hi before after good alone h =
      let (b, e, serving, one') = served in
      (b, choose-pursues f t p one ∙ ap (λ x. pursue t x p) picked ∙ e, serving, one')
    where
      p : Actor
      p = prepare t a

      one : p.subscribers ≡ s ∷ []
      one = prepare-alone t a alone before

      hp : Serving file s k p
      hp = prepare-Serving t k a h

      picked : select_next_chunk f p ≡ some k
      picked =
          select-first f m p s k one lo (subst (λ n. k ≤ last_chunk n s) (sym hp.count) hi) hp.done
            (hp.left k (omega arith))

      served :
          (b : Actor) × (drive t k p ≡ running b)
          × Serving file s (k + 1) b
          × (b.subscribers ≡ s ∷ [])
      served = drive-serves t k p lo (omega arith) after good one hp

  turn-ends :
      (f : Float64) (t : Turn) (k : ℕ) (a : Actor)
      → k ≡ last_chunk (max (chunks_of (length file)) 1) s + 1
      → t.closed_before s.channel ≡ false
      → a.subscribers ++ t.arrivals ≡ s ∷ []
      → Serving file s k a
      → (b : Actor) × (turn f t a ≡ finished b)
        × (stream_of s.channel b.sent ≡ ok (slice s.start (s.last + 1) file))
  unfolding turn
  turn-ends f t k a last before alone h =
      (clear p, choose-pursues f t p one ∙ ap (λ x. pursue t x p) nothing, all_said)
    where
      p : Actor
      p = prepare t a

      one : p.subscribers ≡ s ∷ []
      one = prepare-alone t a alone before

      hp : Serving file s k p
      hp = prepare-Serving t k a h

      all_done : IsDone p.chunk_count p.completed s
      all_done i lo hi = hp.done i lo (bound (subst (λ n. i ≤ last_chunk n s) hp.count hi))
        where
          bound : i ≤ last_chunk (max (chunks_of (length file)) 1) s → i < k
          bound w = omega arith

      nothing : select_next_chunk f p ≡ none
      nothing =
          (select-none_iff f p).1
            (subst (All (IsDone p.chunk_count p.completed)) (sym one) (all_done, tt))

      all_said : stream_of s.channel p.sent ≡ ok (slice s.start (s.last + 1) file)
      all_said = hp.said ∙ ap ok (slice_at _ _ s.start (s.last + 1) file refl (omega arith))

  run-serves :
      (f : Float64) (m : IsMonotone f) (world : ℕ → Turn) (fuel now k : ℕ) (a : Actor)
      → IsAlone file s world
      → first_chunk s ≤ k
      → k ≤ last_chunk (max (chunks_of (length file)) 1) s + 1
      → last_chunk (max (chunks_of (length file)) 1) s + 1 < k + fuel
      → a.subscribers ++ (world now).arrivals ≡ s ∷ []
      → Serving file s k a
      → (b : Actor) × (run f fuel world now a ≡ some b)
        × (stream_of s.channel b.sent ≡ ok (slice s.start (s.last + 1) file))
  unfolding run
  run-serves f m world zero now k a w lo hi enough alone h = absurd (omega arith)
  run-serves f m world (suc fuel) now k a w lo hi enough alone h =
      elim (dec_lt k (last_chunk (max (chunks_of (length file)) 1) s + 1)) [
        | yes more ↦
            let (b, e, hb, one) =
              turn-serves f m (world now) k a lo (omega arith) (w.open_before now)
                (w.open_after now) (w.good now k) alone h in
            let (c, r, said) =
              run-serves f m world fuel (now + 1) (k + 1) b w (omega arith) (omega arith)
                (omega arith)
                (ap (λ ss. ss ++ (world (now + 1)).arrivals) one ∙ ap (λ ss. s ∷ ss) (w.later now))
                hb in
            (c, ap (continue_with (run f fuel world (now + 1))) e ∙ r, said)
        | no all ↦
            let (b, e, said) =
              turn-ends f (world now) k a (omega arith) (w.open_before now) alone h in
            (b, ap (continue_with (run f fuel world (now + 1))) e, said)
      ]

-- One subscriber that asks for a range inside the file, whose receiver stays, in a world where every
-- download gives the bytes of its chunk and the quotients compare monotonically: the loop ends within
-- two turns more than the chunks of the file, and the client has read exactly the bytes of its range, in
-- order, without an error.
pub run_serves_range :
    (f : Float64) (m : IsMonotone f) (file : List ℕ) (s : Subscriber) (world : ℕ → Turn)
    (base served : ℕ) (cached : List (ℕ × String))
    → s.start ≤ s.last
    → s.last < length file
    → IsAlone file s world
    → (b : Actor) × (run f
          (chunks_of (length file) + 2)
          world
          0
          (spawn (length file) base served cached)
        ≡ some b)
      × (stream_of s.channel b.sent ≡ ok (slice s.start (s.last + 1) file))
unfolding stream_of
run_serves_range f m file s world base served cached ordered inside w =
    run-serves file s ordered inside f m world (chunks_of (length file) + 2) 0 (first_chunk s)
      (spawn (length file) base served cached) w (omega arith) (omega arith) (omega arith) w.first
      (record {
        total = refl;
        count = refl;
        done = λ i p q. absurd (omega arith);
        left = λ i p. refl;
        said = ap ok (
            sym (
              slice_empty s.start (min (first_chunk s * chunk_size) (s.last + 1)) file
                (omega arith)));
      })
