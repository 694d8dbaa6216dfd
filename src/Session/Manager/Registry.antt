-- ===== src/Session/Manager/Registry.antt =====
-- What one request gets.
use hugrs.Prelude.{
  ℕ, ◌≡◌, refl, ap, true, false, Option, none, some, find, arith, Bool-cases, inl, inr, find-test,
  subst,
}
use hugrs.Session.Manager.{
  ActorHandle, Manager, is_for, is_closed, unless_closed, look, spawn, or_spawn, get_or_create,
}

-- What a request gets: a live actor for its file, which a look finds from then on.
pub record IsServing (file_id : ℕ) (h : ActorHandle) (m : Manager) : Type 0 where
  pub for_file : is_for file_id h ≡ true
  pub lives : is_closed h m ≡ false
  pub registered : look file_id m ≡ some h

pub spawn-IsServing :
    (file_id total_size : ℕ) (m : Manager)
    → IsServing file_id (spawn file_id total_size m).0 (spawn file_id total_size m).1
unfolding spawn look
spawn-IsServing file_id total_size m = record {
  for_file = ground arith;
  lives = ground arith;
  registered = ground arith;
}

pub unless_closed-some :
    (m : Manager) (o : Option ActorHandle) (h : ActorHandle)
    → unless_closed m o ≡ some h
    → (o ≡ some h) × (is_closed h m ≡ false)
unless_closed-some m none h e = absurd (ground arith)
unless_closed-some m (some g) h e = elim (Bool-cases (is_closed g m)) [
  | inl closed ↦ absurd (ground (arith, closed, e))
  | inr running ↦
      let same : g ≡ h = ground (arith, running, e) in
      (ap some same, subst (λ x. is_closed x m ≡ false) same running)
]

looked-IsServing :
    (file_id : ℕ) (h : ActorHandle) (m : Manager) → look file_id m ≡ some h → IsServing file_id h m
unfolding look
looked-IsServing file_id h m e =
    let (found, running) = unless_closed-some m (find (is_for file_id) m.map) h e in
    record { for_file = find-test (is_for file_id) m.map h found; lives = running; registered = e }

-- A request gets a live actor for its file, registered for the next ones: a request that follows gets
-- the same actor, and starts none.
pub get_or_create-IsServing :
    (file_id total_size : ℕ) (m : Manager)
    → let got = get_or_create file_id total_size m in
      IsServing file_id got.0 got.1
      × ((size : ℕ) → get_or_create file_id size got.1 ≡ (got.0, got.1))
unfolding get_or_create
get_or_create-IsServing file_id total_size m = served (look file_id m) refl
  where
    again :
        (h : ActorHandle) (k : Manager)
        → IsServing file_id h k
        → (size : ℕ) → or_spawn file_id size (look file_id k) k ≡ (h, k)
    again h k s size = rw s.registered refl

    served :
        (o : Option ActorHandle)
        → look file_id m ≡ o
        → let got = or_spawn file_id total_size o m in
          IsServing file_id got.0 got.1
          × ((size : ℕ) → or_spawn file_id size (look file_id got.1) got.1 ≡ (got.0, got.1))
    served none e = let s = spawn-IsServing file_id total_size m in (s, again _ _ s)
    served (some h) e = let s = looked-IsServing file_id h m e in (s, again _ _ s)
