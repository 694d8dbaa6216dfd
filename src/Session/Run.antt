-- ===== src/Session/Run.antt =====
-- The loop of `FileSessionActor::run` and `download_and_forward` of src/session.rs. What a turn of
-- the loop meets of the world is a value of `Turn`; the log lines are left out.
pub mod Stream
pub mod Delivery
pub mod Single
pub mod Ending
pub mod Failure
use hugrs.Prelude.{
  ℕ, zero, suc, ◌+◌, ◌-◌, ◌%◌, ◌^◌, String, Bool, true, false, not, ◌&&◌, Option, none, some, List,
  [], ◌∷◌, ◌++◌, Result, ok, err, ◌==◌, length, select, max, if◌then◌else◌,
}
use hugrs.Session.Ranges.{chunk_first, chunks_of}
use hugrs.Session.State.{Subscriber, Message, Actor, Float64}
use hugrs.Session.Selection.{select_next_chunk}
use hugrs.Session.Forwarding.{forward_chunk, forward_error, clean_subscribers}
use hugrs.Session.Prefetch.{cleanup_prefetches, schedule_prefetches}

-- What comes of `session_table.subscribe(..)` and `rx.recv()`: no receiver; the bytes; or an error
-- message (the download's own, of a closed channel, or of a lagging receiver).
pub data Download : Type 0 where
  no_receiver : String → Download
  received : List ℕ → Download
  failed : String → Download

pub record Turn : Type 0 where
  -- the subscriptions in the mailbox
  pub arrivals : List Subscriber
  -- the channels whose receivers have gone, before the download and after it
  pub closed_before : ℕ → Bool
  pub closed_after : ℕ → Bool
  -- the shared map of cached chunks, before the download and after it
  pub cached_before : List (ℕ × String)
  pub cached_after : List (ℕ × String)
  pub download : ℕ → Download

pub data Step : Type 0 where
  finished : Actor → Step
  running : Actor → Step

-- `FileSessionActor::spawn`
abbrev pub spawn : ℕ → ℕ → ℕ → List (ℕ × String) → Actor
spawn total_size base served cached = record {
  total_size = total_size;
  chunk_count = max (chunks_of total_size) 1;
  prefetch_budget_base = base;
  served_bytes = served;
  subscribers = [];
  completed = [];
  prefetch_inflight = [];
  cached_chunks = cached;
  sent = [];
}

-- `self.subscribers.clear()`, which drops the senders
abbrev pub clear : Actor → Actor
clear a = record a { subscribers = [] }

-- A completed chunk: forwarded, counted (`AtomicU64::fetch_add` wraps) and marked.
unfoldable pub deliver : (ℕ → Bool) → ℕ → List ℕ → Actor → Actor
unfolding forward_chunk
deliver is_closed idx bytes a =
    let b = forward_chunk is_closed (chunk_first idx) bytes a in
    record b {
      served_bytes = (b.served_bytes + length bytes) % 2 ^ 64;
      completed = idx ∷ b.completed;
    }

-- The actor goes on (`true`) or gives up.
unfoldable pub download_and_forward : Turn → ℕ → Actor → Bool × Actor
unfolding deliver forward_error
download_and_forward t idx a = elim (t.download idx) [
  | no_receiver e ↦ (false, a)
  | received bytes ↦ (true, deliver t.closed_after idx bytes a)
  | failed e ↦ (false, forward_error t.closed_after e a)
]

abbrev pub is_empty {ℓ} : {A : Type ℓ} → List A → Bool
is_empty [] = true
is_empty (x ∷ xs) = false

-- The turn up to the choice of a chunk.
unfoldable pub prepare : Turn → Actor → Actor
unfolding clean_subscribers cleanup_prefetches
prepare t a = cleanup_prefetches (
    clean_subscribers t.closed_before
      (record a { subscribers = a.subscribers ++ t.arrivals; cached_chunks = t.cached_before }))

unfoldable pub promote : ℕ → Actor → Actor
promote idx a = record a { prefetch_inflight = select (λ j. not (j == idx)) a.prefetch_inflight }

unfoldable pub settle : Turn → Bool × Actor → Step
unfolding schedule_prefetches
settle t (go_on, b) =
    if go_on
    then running (schedule_prefetches (record b { cached_chunks = t.cached_after }))
    else finished (clear b)

-- The rest of a turn, when a chunk is chosen.
unfoldable pub drive : Turn → ℕ → Actor → Step
unfolding download_and_forward promote settle
drive t idx a = settle t (download_and_forward t idx (promote idx a))

abbrev pub pursue : Turn → Option ℕ → Actor → Step
pursue t none a = finished (clear a)
pursue t (some idx) a = drive t idx a

abbrev pub continue_with : (Actor → Option Actor) → Step → Option Actor
continue_with next (finished b) = some b
continue_with next (running b) = next b

module _ (f : Float64) where
  -- The turn from the test for an idle actor on.
  unfoldable pub choose : Turn → Actor → Step
  unfolding drive select_next_chunk
  choose t a =
      if is_empty a.subscribers && is_empty a.prefetch_inflight
      then finished (clear a)
      else pursue t (select_next_chunk f a) a

  unfoldable pub turn : Turn → Actor → Step
  unfolding prepare choose
  turn t a = choose t (prepare t a)

  -- `none` when the fuel ends before the loop.
  unfoldable pub run : ℕ → (ℕ → Turn) → ℕ → Actor → Option Actor
  unfolding turn
  run zero world now a = none
  run (suc fuel) world now a = continue_with (run fuel world (now + 1)) (turn (world now) a)
