-- ===== src/Server/Singleflight/Flight.antt =====
-- A flight that succeeds: a leader, the calls that wait for it, and its completion.
use hugrs.Prelude.{
  ℕ, ◌≡◌, refl, sym, ap, ◌∙◌, String, false, not, some, List, [], ◌∷◌, ◌++◌, append_assoc,
  append-nil, map, ok, eq_refl, if◌then◌else◌, any_of, select, find, arith,
}
use hugrs.Server.Singleflight.{
  MetadataReconcileOutcome, probed, Inflight, arrives, completes, is_key, leads, add_waiter, arrive,
  answer_all, conclude, stop_working, complete, complete_found, step, steps,
}

select-others :
    {A : Type 0} (key : String) (xs : List (String × A))
    → any_of (is_key key) xs ≡ false
    → select (λ e. not (is_key key e)) xs ≡ xs
select-others key [] n = refl
select-others key (x ∷ xs) n = ground (arith, select-others key xs)

map-others :
    (key : String) (c : ℕ) (xs : List (String × List ℕ))
    → any_of (is_key key) xs ≡ false
    → map (add_waiter key c) xs ≡ xs
map-others key c [] n = refl
map-others key c (x ∷ xs) n = ground (arith, map-others key c xs)

-- A state with a leader of the key, and its waiters in order of arrival.
abbrev flying : String → ℕ → List ℕ → Inflight → Inflight
flying key leader waiting st = record st {
  leaders = (key, waiting) ∷ st.leaders;
  working = (key, leader) ∷ st.working;
}

arrive-flying :
    (key : String) (leader c : ℕ) (waiting : List ℕ) (st : Inflight)
    → any_of (is_key key) st.leaders ≡ false
    → arrive key c (flying key leader waiting st) ≡ flying key leader (waiting ++ c ∷ []) st
unfolding arrive
arrive-flying key leader c waiting st n = rw (eq_refl key) (
    ap (λ ls. record (flying key leader [] st) { leaders = (key, waiting ++ c ∷ []) ∷ ls })
      (map-others key c st.leaders n))

arrivals-flying :
    (key : String) (leader : ℕ) (cs waiting : List ℕ) (st : Inflight)
    → any_of (is_key key) st.leaders ≡ false
    → steps (map (arrives key) cs) (flying key leader waiting st)
      ≡ flying key leader (waiting ++ cs) st
unfolding steps step
arrivals-flying key leader [] waiting st n =
    ap (λ w. flying key leader w st) (sym (append-nil waiting))
arrivals-flying key leader (c ∷ cs) waiting st n =
    ap (steps (map (arrives key) cs)) (arrive-flying key leader c waiting st n)
    ∙ arrivals-flying key leader cs (waiting ++ c ∷ []) st n
    ∙ ap (λ w. flying key leader w st) (append_assoc waiting (c ∷ []) cs)

conclude-flying :
    (key : String) (leader : ℕ) (waiting : List ℕ) (o : MetadataReconcileOutcome) (st : Inflight)
    → any_of (is_key key) st.leaders ≡ false
    → any_of (is_key key) st.working ≡ false
    → conclude key leader (probed o) (stop_working key (flying key leader waiting st))
      ≡ record st { answers = answer_all key (ok o) (leader ∷ waiting) ++ st.answers }
conclude-flying key leader waiting o st n w =
    rw (eq_refl key, select-others key st.leaders n, select-others key st.working w) refl

complete-flying :
    (key : String) (leader : ℕ) (waiting : List ℕ) (o : MetadataReconcileOutcome) (st : Inflight)
    → any_of (is_key key) st.leaders ≡ false
    → any_of (is_key key) st.working ≡ false
    → complete key (probed o) (flying key leader waiting st)
      ≡ record st { answers = answer_all key (ok o) (leader ∷ waiting) ++ st.answers }
unfolding complete
complete-flying key leader waiting o st n w =
    ap
      (λ t.
        complete_found key (probed o)
          (if t then some (key, leader) else find (is_key key) st.working)
          (flying key leader waiting st))
      (eq_refl key)
    ∙ conclude-flying key leader waiting o st n w

-- Calls with a key that is free and that nobody works on: the first one leads, the others wait.
-- When the leader's work gives an outcome, each of them has been answered once, with that outcome,
-- and the rest of the state is as it was before: the key is free again.
pub flight_answers_all :
    (key : String) (leader : ℕ) (waiting : List ℕ) (o : MetadataReconcileOutcome) (st : Inflight)
    → leads key st ≡ false
    → any_of (is_key key) st.working ≡ false
    → step (completes key (probed o)) (steps (map (arrives key) (leader ∷ waiting)) st)
      ≡ record st { answers = answer_all key (ok o) (leader ∷ waiting) ++ st.answers }
unfolding step steps arrive
flight_answers_all key leader waiting o st n w =
    ap (complete key (probed o))
      (ap (steps (map (arrives key) waiting)) (led n) ∙ arrivals-flying key leader waiting [] st n)
    ∙ complete-flying key leader waiting o st n w
  where
    led : leads key st ≡ false → arrive key leader st ≡ flying key leader [] st
    led e = rw e refl
