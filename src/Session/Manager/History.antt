-- ===== src/Session/Manager/History.antt =====
-- The registry of actors over a history of requests and ends of actors.
use hugrs.Prelude.{
  ℕ, ◌≤◌, ◌≡◌, refl, ap, sym, ◌∙◌, subst, Bool, false, not, Option, none, some, List, [], ◌∷◌, All,
  All-mono, ◌==◌, find, select, any_of, length, arith, Bool-cases, inl, inr,
}
use hugrs.Session.Manager.{
  ActorHandle, Manager, no_actors, is_for, is_actor, unless_closed, look, spawn, or_spawn,
  get_or_create, end_actor,
}
use hugrs.Session.Manager.Registry.{unless_closed-some, spawn-IsServing}

-- What happens to the registry: a request for a file of some size, or the end of an actor.
pub data Happening : Type 0 where
  requests : ℕ → ℕ → Happening
  ends : ℕ → Happening

unfoldable pub happen : Happening → Manager → Manager
unfolding get_or_create end_actor
happen (requests file_id total_size) m = (get_or_create file_id total_size m).1
happen (ends mailbox) m = end_actor mailbox m

unfoldable pub history : List Happening → Manager → Manager
unfolding happen
history [] m = m
history (h ∷ hs) m = history hs (happen h m)

-- Each actor that runs is the one that a request for its file finds, and a file has one at most.
pub record IsSingle (m : Manager) : Type 0 where
  pub registered : All (λ (h : ActorHandle). look h.file_id m ≡ some h) m.alive
  pub single : (file_id : ℕ) → length (select (is_for file_id) m.alive) ≤ 1

no_actors-IsSingle : IsSingle no_actors
no_actors-IsSingle = record { registered = tt; single = λ file_id. omega arith }

find-other :
    (file_id other : ℕ) (hs : List ActorHandle)
    → (other == file_id) ≡ false
    → find (is_for other) (select (λ g. not (is_for file_id g)) hs) ≡ find (is_for other) hs
find-other file_id other [] ne = refl
find-other file_id other (h ∷ hs) ne = ground (arith, find-other file_id other hs ne)

-- A file whose actor is not found has none that runs.
none_runs :
    (file_id : ℕ) (m : Manager) (hs : List ActorHandle)
    → look file_id m ≡ none
    → All (λ (h : ActorHandle). look h.file_id m ≡ some h) hs
    → select (is_for file_id) hs ≡ []
none_runs file_id m [] e r = refl
none_runs file_id m (h ∷ hs) e r = elim (Bool-cases (is_for file_id h)) [
  | inl same ↦
      let at : h.file_id ≡ file_id = ground arith in
      absurd (found (sym e ∙ sym (ap (λ i. look i m) at) ∙ r.0))
  | inr other ↦ rw other (none_runs file_id m hs e r.1)
]
  where
    found : ◌≡◌ {A = Option ActorHandle} none (some h) → ⊥
    found k = ground arith

-- An actor that was found for another file is found after a spawn.
look-spawn :
    (file_id total_size : ℕ) (m : Manager) (h : ActorHandle)
    → look file_id m ≡ none
    → look h.file_id m ≡ some h
    → look h.file_id (spawn file_id total_size m).1 ≡ some h
unfolding look spawn
look-spawn file_id total_size m h e r =
    let (found, running) = unless_closed-some m (find (is_for h.file_id) m.map) h r in
    elim (Bool-cases (h.file_id == file_id)) [
      | inl same ↦
          let at : h.file_id ≡ file_id = ground arith in
          absurd (never (sym e ∙ sym (ap (λ i. unless_closed m (find (is_for i) m.map)) at) ∙ r))
      | inr other ↦
          let apart : (file_id == h.file_id) ≡ false = ground arith in
          rw (apart, find-other file_id h.file_id m.map other, found) (ground arith)
    ]
  where
    never : ◌≡◌ {A = Option ActorHandle} none (some h) → ⊥
    never k = ground arith

spawn-IsSingle :
    (file_id total_size : ℕ) (m : Manager)
    → look file_id m ≡ none
    → (look file_id (spawn file_id total_size m).1 ≡ some (spawn file_id total_size m).0)
    → IsSingle m
    → IsSingle (spawn file_id total_size m).1
unfolding spawn
spawn-IsSingle file_id total_size m e new v = record {
  registered = (new, All-mono (λ h. look-spawn file_id total_size m h e) m.alive v.registered);
  single = λ i. elim (Bool-cases (file_id == i)) [
    | inl same ↦
        let at : file_id ≡ i = ground arith in
        let empty : select (is_for i) m.alive ≡ [] =
          subst (λ j. select (is_for j) m.alive ≡ []) at
            (none_runs file_id m m.alive e v.registered) in
        rw (same, empty) (omega arith)
    | inr other ↦ rw other (v.single i)
  ];
}

request-IsSingle :
    (file_id total_size : ℕ) (m : Manager)
    → IsSingle m
    → IsSingle (get_or_create file_id total_size m).1
unfolding get_or_create
request-IsSingle file_id total_size m v = served (look file_id m) refl
  where
    served :
        (o : Option ActorHandle) → look file_id m ≡ o → IsSingle (or_spawn file_id total_size o m).1
    served (some h) e = v
    served none e =
        spawn-IsSingle file_id total_size m e (spawn-IsServing file_id total_size m).registered v

any_of-others :
    (mailbox other : ℕ) (hs : List ActorHandle)
    → (other == mailbox) ≡ false
    → any_of (is_actor other) (select (λ h. not (is_actor mailbox h)) hs)
      ≡ any_of (is_actor other) hs
any_of-others mailbox other [] ne = refl
any_of-others mailbox other (h ∷ hs) ne = ground (arith, any_of-others mailbox other hs ne)

-- An actor that was found is found after the end of another.
look-end_actor :
    (mailbox : ℕ) (m : Manager) (h : ActorHandle)
    → is_actor mailbox h ≡ false
    → look h.file_id m ≡ some h
    → look h.file_id (end_actor mailbox m) ≡ some h
unfolding look end_actor
look-end_actor mailbox m h other r =
    let (found, running) = unless_closed-some m (find (is_for h.file_id) m.map) h r in
    rw (found, any_of-others mailbox h.mailbox m.alive other) (rw running refl)

registered-others :
    (mailbox : ℕ) (m : Manager) (hs : List ActorHandle)
    → All (λ (h : ActorHandle). look h.file_id m ≡ some h) hs
    → All
        (λ (h : ActorHandle). look h.file_id (end_actor mailbox m) ≡ some h)
        (select (λ h. not (is_actor mailbox h)) hs)
registered-others mailbox m [] r = tt
registered-others mailbox m (h ∷ hs) r = elim (Bool-cases (is_actor mailbox h)) [
  | inl ended ↦ rw ended (registered-others mailbox m hs r.1)
  | inr other ↦ rw other (look-end_actor mailbox m h other r.0, registered-others mailbox m hs r.1)
]

length-select_twice :
    (p q : ActorHandle → Bool) (hs : List ActorHandle)
    → length (select p (select q hs)) ≤ length (select p hs)
length-select_twice p q [] = omega arith
length-select_twice p q (h ∷ hs) = ground (arith, length-select_twice p q hs)

end_actor-IsSingle : (mailbox : ℕ) (m : Manager) → IsSingle m → IsSingle (end_actor mailbox m)
unfolding end_actor
end_actor-IsSingle mailbox m v = record {
  registered = registered-others mailbox m m.alive v.registered;
  single = λ i.
      omega
        (arith, v.single i, length-select_twice (is_for i) (λ h. not (is_actor mailbox h)) m.alive);
}

history-IsSingle_from : (hs : List Happening) (m : Manager) → IsSingle m → IsSingle (history hs m)
unfolding history happen
history-IsSingle_from [] m v = v
history-IsSingle_from (requests file_id total_size ∷ hs) m v =
    history-IsSingle_from hs _ (request-IsSingle file_id total_size m v)
history-IsSingle_from (ends mailbox ∷ hs) m v =
    history-IsSingle_from hs _ (end_actor-IsSingle mailbox m v)

-- After any sequence of requests, one after another, and ends of actors on a new registry: a file has
-- at most one actor that runs, and a request for the file finds it.
pub history-IsSingle : (hs : List Happening) → IsSingle (history hs no_actors)
history-IsSingle hs = history-IsSingle_from hs no_actors no_actors-IsSingle
