-- ===== src/Session/Run/Failure.antt =====
-- A session with one subscriber, where the download of a chunk of its range fails.
use hugrs.Prelude.{
  ℕ, zero, suc, ◌+◌, ◌*◌, ◌≤◌, ◌<◌, ◌≡◌, refl, sym, ap, ◌∙◌, subst, String, true, false, some, List,
  [], ◌∷◌, ◌++◌, ok, err, ◌==◌, length, min, max, arith, dec_lt, slice_empty, ◌/◌,
}
use hugrs.Session.Ranges.{chunk_size, chunks_of}
use hugrs.Session.State.{Subscriber, Actor, Float64, IsMonotone}
use hugrs.Session.Selection.{first_chunk, last_chunk, select_next_chunk}
use hugrs.Session.Selection.Order.{select-first}
use hugrs.Session.Forwarding.{error_messages, forward_error}
use hugrs.Session.Run.{
  received, failed, Turn, finished, spawn, clear, download_and_forward, prepare, promote, settle,
  drive, pursue, turn, run, continue_with,
}
use hugrs.Session.Run.Stream.{stream_of, read_body, stream-append}
use hugrs.Session.Run.Delivery.{chunk_of, Serving}
use hugrs.Session.Run.Single.{prepare-alone, prepare-Serving, choose-pursues, turn-serves}

-- The world sends one subscriber, whose receiver stays; the downloads before the chunk `bad` give
-- their chunks, and that of `bad` fails.
pub record FailsAt (file : List ℕ) (s : Subscriber) (bad : ℕ) (e : String) (world : ℕ → Turn)
    : Type 0 where
  pub first : (world 0).arrivals ≡ s ∷ []
  pub later : (t : ℕ) → (world (t + 1)).arrivals ≡ []
  pub open_before : (t : ℕ) → (world t).closed_before s.channel ≡ false
  pub open_after : (t : ℕ) → (world t).closed_after s.channel ≡ false
  pub good : (t idx : ℕ) → idx < bad → (world t).download idx ≡ received (chunk_of file idx)
  pub broken : (t : ℕ) → (world t).download bad ≡ failed e

module _ (file : List ℕ) (s : Subscriber) (ordered : s.start ≤ s.last)
    (inside : s.last < length file) where
  read_error :
      (e : String) → stream_of s.channel (record { to = s.channel; body = err e } ∷ []) ≡ err e
  unfolding stream_of
  read_error e = rw (same s.channel) refl
    where
      same : (n : ℕ) → (n == n) ≡ true
      same n = ground arith

  drive-fails :
      (t : Turn) (k : ℕ) (a : Actor) (e : String) (bytes : List ℕ)
      → t.closed_after s.channel ≡ false
      → t.download k ≡ failed e
      → a.subscribers ≡ s ∷ []
      → stream_of s.channel a.sent ≡ ok bytes
      → (b : Actor) × (drive t k a ≡ finished b) × (stream_of s.channel b.sent ≡ err e)
  unfolding drive download_and_forward promote settle forward_error error_messages
  drive-fails t k a e bytes is_open fails alone said = (
    clear (forward_error t.closed_after e (promote k a)),
    rw (download_and_forward, fails) refl,
    stream-append s.channel a.sent (error_messages t.closed_after e a.subscribers)
        ∙ ap
            (λ ss.
              read_body (stream_of s.channel a.sent)
                (stream_of s.channel (error_messages t.closed_after e ss)))
            alone
        ∙ ap (λ ms. read_body (stream_of s.channel a.sent) (stream_of s.channel ms)) one
        ∙ ap (read_body (stream_of s.channel a.sent)) (read_error e)
        ∙ ap (λ r. read_body r (err e)) said,
  )
    where
      one : error_messages t.closed_after e (s ∷ []) ≡ record { to = s.channel; body = err e } ∷ []
      one = rw is_open refl

  turn-fails :
      (f : Float64) (m : IsMonotone f) (t : Turn) (k : ℕ) (a : Actor) (e : String)
      → first_chunk s ≤ k
      → k ≤ last_chunk (max (chunks_of (length file)) 1) s
      → t.closed_before s.channel ≡ false
      → t.closed_after s.channel ≡ false
      → t.download k ≡ failed e
      → a.subscribers ++ t.arrivals ≡ s ∷ []
      → Serving file s k a
      → (b : Actor) × (turn f t a ≡ finished b) × (stream_of s.channel b.sent ≡ err e)
  unfolding turn
  turn-fails f m t k a e lo hi before after fails alone h =
      let (b, ends, read) = drive-fails t k p e _ after fails one hp.said in
      (
        b,
        choose-pursues file s ordered inside f t p one ∙ ap (λ x. pursue t x p) picked ∙ ends,
        read,
      )
    where
      p : Actor
      p = prepare t a

      one : p.subscribers ≡ s ∷ []
      one = prepare-alone file s ordered inside t a alone before

      hp : Serving file s k p
      hp = prepare-Serving file s ordered inside t k a h

      picked : select_next_chunk f p ≡ some k
      picked =
          select-first f m p s k one lo (subst (λ n. k ≤ last_chunk n s) (sym hp.count) hi) hp.done
            (hp.left k (omega arith))

  run-fails :
      (f : Float64) (m : IsMonotone f) (world : ℕ → Turn) (fuel now k bad : ℕ) (a : Actor)
      (e : String)
      → FailsAt file s bad e world
      → first_chunk s ≤ k
      → k ≤ bad
      → bad ≤ last_chunk (max (chunks_of (length file)) 1) s
      → bad < k + fuel
      → a.subscribers ++ (world now).arrivals ≡ s ∷ []
      → Serving file s k a
      → (b : Actor) × (run f fuel world now a ≡ some b) × (stream_of s.channel b.sent ≡ err e)
  unfolding run
  run-fails f m world zero now k bad a e w lo hi within enough alone h = absurd (omega arith)
  run-fails f m world (suc fuel) now k bad a e w lo hi within enough alone h = elim (dec_lt k bad) [
    | yes before ↦
        let (b, eq, hb, one) =
          turn-serves file s ordered inside f m (world now) k a lo (omega arith) (w.open_before now)
            (w.open_after now) (w.good now k before) alone h in
        let (c, r, read) =
          run-fails f m world fuel (now + 1) (k + 1) bad b e w (omega arith) (omega arith) within
            (omega arith)
            (ap (λ ss. ss ++ (world (now + 1)).arrivals) one ∙ ap (λ ss. s ∷ ss) (w.later now))
            hb in
        (c, ap (continue_with (run f fuel world (now + 1))) eq ∙ r, read)
    | no here ↦
        let at : bad ≡ k = omega arith in
        let (b, eq, read) =
          turn-fails f m (world now) k a e lo (omega arith) (w.open_before now) (w.open_after now)
            (subst (λ i. (world now).download i ≡ failed e) at (w.broken now)) alone h in
        (b, ap (continue_with (run f fuel world (now + 1))) eq, read)
  ]

-- One subscriber that asks for a range inside the file, whose receiver stays, with a monotone comparison
-- of quotients: when the download of a chunk of its range fails and those before it give their chunks, the
-- loop ends within two turns more than the chunks of the file, and the client reads the error of that
-- download, not a shorter body.
pub run_reports_failure :
    (f : Float64) (m : IsMonotone f) (file : List ℕ) (s : Subscriber) (world : ℕ → Turn)
    (base served bad : ℕ) (e : String) (cached : List (ℕ × String))
    → s.start ≤ s.last
    → s.last < length file
    → first_chunk s ≤ bad
    → bad ≤ s.last / chunk_size
    → FailsAt file s bad e world
    → (b : Actor) × (run f
          (chunks_of (length file) + 2)
          world
          0
          (spawn (length file) base served cached)
        ≡ some b)
      × (stream_of s.channel b.sent ≡ err e)
unfolding stream_of
run_reports_failure f m file s world base served bad e cached ordered inside lo hi w =
    run-fails file s ordered inside f m world (chunks_of (length file) + 2) 0 (first_chunk s) bad
      (spawn (length file) base served cached) e w (omega arith) lo (omega arith) (omega arith)
      w.first
      (record {
        total = refl;
        count = refl;
        done = λ i p q. absurd (omega arith);
        left = λ i p. refl;
        said = ap ok (
            sym (
              slice_empty s.start (min (first_chunk s * chunk_size) (s.last + 1)) file
                (omega arith)));
      })
