-- ===== src/Session/Selection/Soundness.antt =====
-- What `select_next_chunk` picks, whatever the floating-point comparison says.
use hugrs.Prelude.{
  ℕ, zero, suc, ◌+◌, ◌≤◌, ◌<◌, ◌≡◌, refl, ◌⊎◌, inl, inr, true, false, none, some, List, [], ◌∷◌,
  All, Bool-cases, ◌∙◌, ◌↔◌, subst, dec_lt, arith,
}
use hugrs.Session.State.{Subscriber, Actor, Float64, contains}
use hugrs.Session.Selection.{
  first_chunk, last_chunk, chunk_rounds, Best, consider, scan, scan_all, urgency, is_better,
  select_next_chunk,
}

-- A chunk that a subscriber wants and that is not completed.
abbrev pub IsWanted : ℕ → List ℕ → ℕ → Subscriber → Type 0
IsWanted chunk_count completed idx s =
    (first_chunk s ≤ idx) × (idx ≤ last_chunk chunk_count s) × (contains idx completed ≡ false)

-- Some subscriber of the list wants the chunk.
abbrev pub WantedBy : ℕ → List ℕ → ℕ → List Subscriber → Type 0
WantedBy chunk_count completed idx [] = ⊥
WantedBy chunk_count completed idx (s ∷ ss) =
    IsWanted chunk_count completed idx s ⊎ WantedBy chunk_count completed idx ss

-- Every chunk of the range is completed.
abbrev pub IsDone : ℕ → List ℕ → Subscriber → Type 0
IsDone chunk_count completed s =
    (idx : ℕ) → first_chunk s ≤ idx → idx ≤ last_chunk chunk_count s → contains idx completed ≡ true

module _ (f : Float64) (chunk_count : ℕ) (completed : List ℕ) where
  consider-cases :
      (s : Subscriber) (idx : ℕ) (best : Best f)
      → (consider f completed s idx best ≡ best)
        ⊎ ((consider f completed s idx best ≡ some (idx, urgency f s idx))
            × (contains idx completed ≡ false))
  consider-cases s idx best = elim (Bool-cases (contains idx completed)) [
    | inl done ↦ inl (rw done)
    | inr open_chunk ↦ elim (Bool-cases (is_better f (urgency f s idx) best)) [
      | inl better ↦ inr (rw (open_chunk, better), open_chunk)
      | inr worse ↦ inl (rw (open_chunk, worse))
    ]
  ]

  consider-none :
      (s : Subscriber) (idx : ℕ) (best : Best f)
      → consider f completed s idx best ≡ none
      → (best ≡ none) × (contains idx completed ≡ true)
  consider-none s idx none e = ground arith
  consider-none s idx (some x) e = ground arith

  -- A chunk of the rounds that is not completed.
  abbrev Found : ℕ → ℕ → Best f → Type 0
  Found idx end best =
      (i : ℕ) × (u : f.Float) × (best ≡ some (i, u))
      × (idx ≤ i)
      × (i < end)
      × (contains i completed ≡ false)

  -- The inner loop keeps the best so far, or finds a chunk of its rounds that is not completed.
  scan-finds :
      (n : ℕ) (s : Subscriber) (idx : ℕ) (best : Best f)
      → (scan f n completed s idx best ≡ best) ⊎ Found idx (idx + n) (scan f n completed s idx best)
  unfolding scan
  scan-finds zero s idx best = inl refl
  scan-finds (suc n) s idx best =
      elim (scan-finds n s (idx + 1) (consider f completed s idx best)) [
        | inr (i, u, e, lo, hi, c) ↦ inr (i, u, e, omega arith, omega arith, c)
        | inl e ↦ elim (consider-cases s idx best) [
          | inl same ↦ inl (e ∙ same)
          | inr (this, c) ↦ inr (idx, urgency f s idx, e ∙ this, omega arith, omega arith, c)
        ]
      ]

  -- If it ends with nothing, it began with nothing, and all its chunks are completed.
  scan-none :
      (n : ℕ) (s : Subscriber) (idx : ℕ) (best : Best f)
      → scan f n completed s idx best ≡ none
      → (best ≡ none) × ((i : ℕ) → idx ≤ i → i < idx + n → contains i completed ≡ true)
  unfolding scan
  scan-none zero s idx best e = (e, λ i h k. absurd (omega arith))
  scan-none (suc n) s idx best e =
      let (none_here, later) = scan-none n s (idx + 1) (consider f completed s idx best) e in
      let (was_none, done) = consider-none s idx best none_here in
      (
        was_none,
        λ i h k. elim (dec_lt idx i) [
          | yes above ↦ later i (omega arith) (omega arith)
          | no same ↦
              let at : idx ≡ i = omega arith in subst (λ j. contains j completed ≡ true) at done
        ],
      )

  scan-done :
      (n : ℕ) (s : Subscriber) (idx : ℕ) (best : Best f)
      → ((i : ℕ) → idx ≤ i → i < idx + n → contains i completed ≡ true)
      → scan f n completed s idx best ≡ best
  unfolding scan
  scan-done zero s idx best h = refl
  scan-done (suc n) s idx best h =
      rw (h idx (omega arith) (omega arith))
        (scan-done n s (idx + 1) best (λ i lo hi. h i (omega arith) (omega arith)))

  abbrev Picked : List Subscriber → Best f → Type 0
  Picked ss best =
      (i : ℕ) × (u : f.Float) × (best ≡ some (i, u)) × WantedBy chunk_count completed i ss

  scan_all-finds :
      (ss : List Subscriber) (best : Best f)
      → (scan_all f chunk_count completed ss best ≡ best)
        ⊎ Picked ss (scan_all f chunk_count completed ss best)
  unfolding scan_all
  scan_all-finds [] best = inl refl
  scan_all-finds (s ∷ ss) best =
      let mid = scan f (chunk_rounds chunk_count s) completed s (first_chunk s) best in
      elim (scan_all-finds ss mid) [
        | inr (i, u, e, w) ↦ inr (i, u, e, inr w)
        | inl e ↦ elim (scan-finds (chunk_rounds chunk_count s) s (first_chunk s) best) [
          | inl same ↦ inl (e ∙ same)
          | inr (i, u, e', lo, hi, c) ↦ inr (i, u, e ∙ e', inl (lo, omega arith, c))
        ]
      ]

  scan_all-none :
      (ss : List Subscriber) (best : Best f)
      → scan_all f chunk_count completed ss best ≡ none
      → (best ≡ none) × All (IsDone chunk_count completed) ss
  unfolding scan_all
  scan_all-none [] best e = (e, tt)
  scan_all-none (s ∷ ss) best e =
      let (mid_none, later) = scan_all-none ss _ e in
      let (was_none, done) =
        scan-none (chunk_rounds chunk_count s) s (first_chunk s) best mid_none in
      (was_none, ((λ i lo hi. done i lo (omega arith)), later))

  scan_all-done :
      (ss : List Subscriber) (best : Best f)
      → All (IsDone chunk_count completed) ss
      → scan_all f chunk_count completed ss best ≡ best
  unfolding scan_all
  scan_all-done [] best d = refl
  scan_all-done (s ∷ ss) best d =
      rw
        (scan-done (chunk_rounds chunk_count s) s (first_chunk s) best
          (λ i lo hi. d.0 i lo (omega arith)))
        (scan_all-done ss best d.1)

-- Whatever the comparison of quotients says, a picked chunk lies in the range of a subscriber and
-- is not completed.
pub select-IsWanted :
    (f : Float64) (a : Actor) (idx : ℕ)
    → select_next_chunk f a ≡ some idx
    → WantedBy a.chunk_count a.completed idx a.subscribers
unfolding select_next_chunk
select-IsWanted f a idx e = elim (scan_all-finds f a.chunk_count a.completed a.subscribers none) [
  | inl n ↦ absurd (ground arith)
  | inr (i, u, p, w) ↦
      let at : i ≡ idx = ground arith in
      subst (λ j. WantedBy a.chunk_count a.completed j a.subscribers) at w
]

-- Whatever the comparison of quotients says, no chunk is picked exactly when all chunks of all
-- ranges are completed.
pub select-none_iff :
    (f : Float64) (a : Actor)
    → (select_next_chunk f a ≡ none) ↔ All (IsDone a.chunk_count a.completed) a.subscribers
unfolding select_next_chunk
select-none_iff f a = (
  (λ e. (scan_all-none f a.chunk_count a.completed a.subscribers none (ground arith)).1),
  λ d. rw (scan_all-done f a.chunk_count a.completed a.subscribers none d),
)
