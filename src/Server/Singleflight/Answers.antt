-- ===== src/Server/Singleflight/Answers.antt =====
-- Who is answered and who waits.
use hugrs.Prelude.{
  ℕ, ◌≡◌, refl, ap, ◌∙◌, inl, inr, String, true, false, not, none, some, List, [], ◌∷◌, ◌++◌, map,
  Result, ok, err, str_eq, eq_iff, any_of, select, find, Bool-cases, Option-cases, arith,
}
use hugrs.Server.Singleflight.{
  MetadataReconcileOutcome, Probe, probe_error, reconcile_error, probed, Answer, Inflight, Event,
  arrives, completes, is_key, leads, add_waiter, arrive, waiters_of, answer_all, conclude,
  stop_working, complete, step, steps,
}

-- The key is taken and nobody works on it.
abbrev pub IsStuck : String → Inflight → Type 0
IsStuck key st = (leads key st ≡ true) × (any_of (is_key key) st.working ≡ false)

-- The answers that calls with the key have.
abbrev pub answers_at : String → List Answer → List Answer
answers_at key = select (λ a. str_eq a.key key)

any_of-waiter :
    (key j : String) (c : ℕ) (ls : List (String × List ℕ))
    → any_of (is_key key) (map (add_waiter j c) ls) ≡ any_of (is_key key) ls
any_of-waiter key j c [] = refl
any_of-waiter key j c (e ∷ es) = ground (arith, any_of-waiter key j c es)

arrive-IsStuck :
    (key j : String) (c : ℕ) (st : Inflight)
    → IsStuck key st
    → IsStuck key (arrive j c st) × ((arrive j c st).answers ≡ st.answers)
unfolding arrive
arrive-IsStuck key j c st (l, w) = elim (Bool-cases (leads j st)) [
  | inl there ↦ rw there ((any_of-waiter key j c st.leaders ∙ l, w), refl)
  | inr new ↦ rw new ((ground arith, ground (arith, eq_iff j key)), refl)
]

find-working :
    {A : Type 0} (key j : String) (xs : List (String × A)) (e : String × A)
    → any_of (is_key key) xs ≡ false
    → find (is_key j) xs ≡ some e
    → str_eq j key ≡ false
find-working key j [] e n f = absurd (ground arith)
find-working key j (x ∷ xs) e n f =
    ground (arith, eq_iff j key, eq_iff x.0 j, eq_iff x.0 key, find-working key j xs e)

any_of-select :
    {A : Type 0} (key j : String) (xs : List (String × A))
    → str_eq j key ≡ false
    → any_of (is_key key) (select (λ e. not (is_key j e)) xs) ≡ any_of (is_key key) xs
any_of-select key j [] n = refl
any_of-select key j (x ∷ xs) n =
    ground (arith, eq_iff x.0 j, eq_iff x.0 key, any_of-select key j xs n)

answers_at-others :
    (key j : String) (r : Result String MetadataReconcileOutcome) (cs : List ℕ) (rest : List Answer)
    → str_eq j key ≡ false
    → answers_at key (answer_all j r cs ++ rest) ≡ answers_at key rest
answers_at-others key j r [] rest n = refl
answers_at-others key j r (c ∷ cs) rest n = rw n (answers_at-others key j r cs rest n)

conclude-IsStuck :
    (key j : String) (c : ℕ) (p : Probe) (st : Inflight)
    → str_eq j key ≡ false
    → IsStuck key st
    → IsStuck key (conclude j c p st)
      × (answers_at key (conclude j c p st).answers ≡ answers_at key st.answers)
conclude-IsStuck key j c (probe_error e) st n s =
    (s, answers_at-others key j (err e) (c ∷ []) st.answers n)
conclude-IsStuck key j c (reconcile_error e) st n s =
    (s, answers_at-others key j (err e) (c ∷ []) st.answers n)
conclude-IsStuck key j c (probed o) st n (l, w) = (
  (any_of-select key j st.leaders n ∙ l, w),
  answers_at-others key j (ok o) (c ∷ waiters_of (find (is_key j) st.leaders)) st.answers n,
)

complete-IsStuck :
    (key j : String) (p : Probe) (st : Inflight)
    → IsStuck key st
    → IsStuck key (complete j p st)
      × (answers_at key (complete j p st).answers ≡ answers_at key st.answers)
unfolding complete
complete-IsStuck key j p st (l, w) = elim (Option-cases (find (is_key j) st.working)) [
  | inl e ↦ rw e ((l, w), refl)
  | inr (e, f) ↦
      let n = find-working key j st.working e w f in
      rw f (
        conclude-IsStuck key j e.1 p (stop_working j st) n
          (l, any_of-select key j st.working n ∙ w))
]

step-IsStuck :
    (key : String) (e : Event) (st : Inflight)
    → IsStuck key st
    → IsStuck key (step e st) × (answers_at key (step e st).answers ≡ answers_at key st.answers)
unfolding step
step-IsStuck key (arrives j c) st s =
    ((arrive-IsStuck key j c st s).0, ap (answers_at key) (arrive-IsStuck key j c st s).1)
step-IsStuck key (completes j p) st s = complete-IsStuck key j p st s

-- A key that is taken while nobody works on it stays so, whatever happens later, and no call with the
-- key, waiting or yet to arrive, is ever answered.
pub steps-IsStuck :
    (key : String) (es : List Event) (st : Inflight)
    → IsStuck key st
    → IsStuck key (steps es st) × (answers_at key (steps es st).answers ≡ answers_at key st.answers)
unfolding steps
steps-IsStuck key [] st s = (s, refl)
steps-IsStuck key (e ∷ es) st s =
    let (s', a) = step-IsStuck key e st s in
    let (s'', a') = steps-IsStuck key es (step e st) s' in (s'', a' ∙ a)

-- What a leader's failed work is.
abbrev pub IsFailure : Probe → Type 0
IsFailure (probe_error e) = Unit
IsFailure (reconcile_error e) = Unit
IsFailure (probed o) = ⊥

none-selected :
    {A : Type 0} (key : String) (xs : List (String × A))
    → any_of (is_key key) (select (λ e. not (is_key key e)) xs) ≡ false
none-selected key [] = refl
none-selected key (x ∷ xs) = ground (arith, none-selected key xs)

conclude-fails :
    (key : String) (c : ℕ) (p : Probe) (st : Inflight)
    → IsFailure p
    → leads key st ≡ true
    → IsStuck key (conclude key c p (stop_working key st))
conclude-fails key c (probe_error e) st f l = (l, none-selected key st.working)
conclude-fails key c (reconcile_error e) st f l = (l, none-selected key st.working)
conclude-fails key c (probed o) st f l = absurd f

-- When the probe or the reconciliation of a leader that works on a taken key fails, the key stays
-- taken, and nobody works on it.
pub complete_failed-IsStuck :
    (key : String) (p : Probe) (st : Inflight)
    → IsFailure p
    → leads key st ≡ true
    → any_of (is_key key) st.working ≡ true
    → IsStuck key (complete key p st)
unfolding complete
complete_failed-IsStuck key p st f l w = elim (Option-cases (find (is_key key) st.working)) [
  | inl e ↦ absurd (none-found st.working e w)
  | inr (x, e) ↦ rw e (conclude-fails key x.1 p st f l)
]
  where
    none-found :
        (xs : List (String × ℕ)) → find (is_key key) xs ≡ none → any_of (is_key key) xs ≡ true → ⊥
    none-found [] e h = ground arith
    none-found (x ∷ xs) e h = ground (arith, none-found xs)
