-- ===== src/Session/Manager.antt =====
-- `FileSessionManager` of src/session.rs, where requests come one after another. An actor is a number;
-- a handle is closed when its actor has ended.
pub mod Registry
pub mod History
use hugrs.Prelude.{
  ℕ, suc, String, Bool, true, false, not, ◌&&◌, Option, none, some, List, [], ◌∷◌, ◌==◌,
  if◌then◌else◌, any_of, find, select,
}

pub record ActorHandle : Type 0 where
  pub mailbox : ℕ
  pub file_id : ℕ
  pub total_size : ℕ

-- `map` is that of the source; `alive` are the actors that run, and `spawned` counts them all.
pub record Manager : Type 0 where
  pub map : List ActorHandle
  pub alive : List ActorHandle
  pub spawned : ℕ

-- `FileSessionManager::new`
abbrev pub no_actors : Manager
no_actors = record { map = []; alive = []; spawned = 0 }

abbrev pub is_for : ℕ → ActorHandle → Bool
is_for file_id h = h.file_id == file_id

abbrev pub is_actor : ℕ → ActorHandle → Bool
is_actor mailbox h = h.mailbox == mailbox

abbrev pub is_closed : ActorHandle → Manager → Bool
is_closed h m = not (any_of (is_actor h.mailbox) m.alive)

abbrev pub unless_closed : Manager → Option ActorHandle → Option ActorHandle
unless_closed m none = none
unless_closed m (some h) = if is_closed h m then none else some h

-- The fast path: an actor that is still alive.
unfoldable pub look : ℕ → Manager → Option ActorHandle
look file_id m = unless_closed m (find (is_for file_id) m.map)

-- `FileSessionActor::spawn` and `map.insert`.
unfoldable pub spawn : ℕ → ℕ → Manager → ActorHandle × Manager
spawn file_id total_size m =
    let h : ActorHandle = record {
      mailbox = m.spawned;
      file_id = file_id;
      total_size = total_size;
    } in
    (
      h,
      record {
        map = h ∷ select (λ g. not (is_for file_id g)) m.map;
        alive = h ∷ m.alive;
        spawned = suc m.spawned;
      },
    )

abbrev pub or_spawn : ℕ → ℕ → Option ActorHandle → Manager → ActorHandle × Manager
or_spawn file_id total_size (some h) m = (h, m)
or_spawn file_id total_size none m = spawn file_id total_size m

unfoldable pub get_or_create : ℕ → ℕ → Manager → ActorHandle × Manager
unfolding look spawn
get_or_create file_id total_size m = or_spawn file_id total_size (look file_id m) m

unfoldable pub remove : ℕ → Manager → Manager
remove file_id m = record m { map = select (λ h. not (is_for file_id h)) m.map }

-- The actor of a handle ends.
unfoldable pub end_actor : ℕ → Manager → Manager
end_actor mailbox m = record m { alive = select (λ h. not (is_actor mailbox h)) m.alive }
