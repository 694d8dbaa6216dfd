-- ===== src/Session/State.antt =====
-- The state of `FileSessionActor` in src/session.rs. A subscriber's sender is the number of its
-- channel, and `sent` is every message that the actor has put into a channel, in order. The hash
-- sets and maps are lists that are read through `contains` and `contains_key`.
use hugrs.Prelude.{ℕ, ◌≤◌, String, Bool, false, ◌≡◌, List, Result, ◌==◌, any_of}

pub record Subscriber : Type 0 where
  pub start : ℕ
  pub last : ℕ
  pub channel : ℕ

pub record Message : Type 0 where
  pub to : ℕ
  pub body : Result String (List ℕ)

pub record Actor : Type 0 where
  pub total_size : ℕ
  pub chunk_count : ℕ
  pub prefetch_budget_base : ℕ
  pub served_bytes : ℕ
  pub subscribers : List Subscriber
  pub completed : List ℕ
  pub prefetch_inflight : List ℕ
  pub cached_chunks : List (ℕ × String)
  pub sent : List Message

abbrev pub contains : ℕ → List ℕ → Bool
contains idx = any_of (λ i. i == idx)

abbrev pub contains_key : ℕ → List (ℕ × String) → Bool
contains_key idx = any_of (λ e. e.0 == idx)

-- Two f64 quotients are compared to rank chunks: the type and the operations are parameters.
pub record Float64 : Type 1 where
  pub Float : Type 0
  pub of_u64 : ℕ → Float
  pub div : Float → Float → Float
  pub lt : Float → Float → Bool

-- IEEE conversion and division by one divisor round monotonically.
pub record IsMonotone (f : Float64) : Type 0 where
  pub lt-div :
      (a b d : ℕ)
      → a ≤ b
      → f.lt (f.div (f.of_u64 b) (f.of_u64 d)) (f.div (f.of_u64 a) (f.of_u64 d)) ≡ false
