-- ===== src/Session/Selection/Order.antt =====
-- The order in which `select_next_chunk` serves a subscriber that is alone.
use hugrs.Prelude.{
  ℕ, zero, suc, ◌+◌, ◌-◌, ◌*◌, ◌≤◌, ◌<◌, ◌≡◌, refl, ap, true, false, none, some, List, [], ◌∷◌, leb,
  if◌then◌else◌, Bool-cases, inl, inr, arith, dec_lt, ◌∙◌, sym, subst,
}
use hugrs.Session.Ranges.{chunk_size}
use hugrs.Session.State.{Subscriber, Actor, Float64, IsMonotone, contains}
use hugrs.Session.Selection.{
  first_chunk, last_chunk, chunk_rounds, consider, scan, scan_all, index_of, urgency, distance,
  range_len, select_next_chunk,
}

distance_mono : (s : Subscriber) (i j : ℕ) → i ≤ j → distance s i ≤ distance s j
distance_mono s i j h = mono (i * chunk_size) (j * chunk_size) (omega arith)
  where
    mono :
        (x y : ℕ)
        → x ≤ y
        → (if leb s.start x then x - s.start else 0) ≤ (if leb s.start y then y - s.start else 0)
    mono x y k = ground arith

module _ (f : Float64) (m : IsMonotone f) (completed : List ℕ) (s : Subscriber) where
  consider-keeps :
      (k idx : ℕ)
      → k ≤ idx
      → consider f completed s idx (some (k, urgency f s k)) ≡ some (k, urgency f s k)
  consider-keeps k idx h = elim (Bool-cases (contains idx completed)) [
    | inl done ↦ rw done refl
    | inr open_chunk ↦
        rw
          (
            open_chunk,
            m.lt-div (distance s k) (distance s idx) (range_len s) (distance_mono s k idx h),
          )
          refl
  ]

  -- A chosen chunk stays the choice while the indices grow.
  scan-keeps :
      (n k idx : ℕ)
      → k ≤ idx
      → scan f n completed s idx (some (k, urgency f s k)) ≡ some (k, urgency f s k)
  unfolding scan
  scan-keeps zero k idx h = refl
  scan-keeps (suc n) k idx h =
      ap (scan f n completed s (idx + 1)) (consider-keeps k idx h)
      ∙ scan-keeps n k (idx + 1) (omega arith)

  -- The inner loop picks the first chunk that is not completed.
  scan-picks :
      (n k idx : ℕ)
      → idx ≤ k
      → k < idx + n
      → ((i : ℕ) → idx ≤ i → i < k → contains i completed ≡ true)
      → contains k completed ≡ false
      → scan f n completed s idx none ≡ some (k, urgency f s k)
  unfolding scan
  scan-picks zero k idx lo hi done open_chunk = absurd (omega arith)
  scan-picks (suc n) k idx lo hi done open_chunk = elim (dec_lt idx k) [
    | yes below ↦ rw (done idx (omega arith) below) (
        scan-picks n k (idx + 1) (omega arith) (omega arith) (λ i p q. done i (omega arith) q)
          open_chunk)
    | no here ↦
        let at : idx ≡ k = omega arith in
        ap (scan f n completed s (idx + 1)) (
          subst (λ i. consider f completed s i none ≡ some (k, urgency f s k)) (sym at)
            (rw open_chunk refl))
        ∙ scan-keeps n k (idx + 1) (omega arith)
  ]

-- With one subscriber, and a comparison of quotients that is monotone, the chunk picked is the first
-- one of the subscriber's range that is not completed.
pub select-first :
    (f : Float64) (m : IsMonotone f) (a : Actor) (s : Subscriber) (k : ℕ)
    → a.subscribers ≡ s ∷ []
    → first_chunk s ≤ k
    → k ≤ last_chunk a.chunk_count s
    → ((i : ℕ) → first_chunk s ≤ i → i < k → contains i a.completed ≡ true)
    → contains k a.completed ≡ false
    → select_next_chunk f a ≡ some k
unfolding select_next_chunk scan_all
select-first f m a s k alone lo hi done open_chunk =
    ap (λ ss. index_of f (scan_all f a.chunk_count a.completed ss none)) alone
    ∙ ap (index_of f) (
        scan-picks f m a.completed s (chunk_rounds a.chunk_count s) k (first_chunk s) lo
          (omega arith) done open_chunk)
