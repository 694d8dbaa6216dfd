-- ===== src/Tests/Sessions.antt =====
-- The theorems on the registry of actors, where one for another file runs.
use hugrs.Prelude.{ℕ, ◌≡◌, [], ◌∷◌}
use hugrs.Session.Manager.{ActorHandle, Manager, get_or_create, no_actors}
use hugrs.Session.Manager.Registry.{IsServing, get_or_create-IsServing}
use hugrs.Session.Manager.History.{requests, ends, history, IsSingle, history-IsSingle}

abbrev other : ActorHandle
other = record { mailbox = 0; file_id = 7; total_size = 3 }

abbrev registry : Manager
registry = record { map = other ∷ []; alive = other ∷ []; spawned = 1 }

get_or_create-IsServing_example :
    IsServing 9 (get_or_create 9 3 registry).0 (get_or_create 9 3 registry).1
    × ((size : ℕ)
        → get_or_create 9 size (get_or_create 9 3 registry).1
          ≡ ((get_or_create 9 3 registry).0, (get_or_create 9 3 registry).1))
get_or_create-IsServing_example = get_or_create-IsServing 9 3 registry

history-IsSingle_example :
    IsSingle (history (requests 9 3 ∷ ends 0 ∷ requests 9 3 ∷ requests 7 3 ∷ []) no_actors)
history-IsSingle_example =
    history-IsSingle (requests 9 3 ∷ ends 0 ∷ requests 9 3 ∷ requests 7 3 ∷ [])
