-- ===== src/Tests/Session.antt =====
-- The theorems on sessions, at a file of four bytes.
use hugrs.Prelude.{
  map, ℕ, zero, suc, ◌+◌, ◌≤◌, ◌≡◌, refl, subst, true, false, some, List, [], ◌∷◌, ok, err, ltb,
  arith,
}
use hugrs.Session.Ranges.{chunks_of}
use hugrs.Session.State.{Subscriber, Actor, Float64, IsMonotone, contains}
use hugrs.Session.Selection.{scan, scan_all, select_next_chunk}
use hugrs.Session.Run.{failed, received, Turn, finished, spawn, prepare, turn, run}
use hugrs.Session.Run.Stream.{stream_of}
use hugrs.Session.Run.Delivery.{chunk_of}
use hugrs.Session.Run.Single.{IsAlone, run_serves_range}
use hugrs.Session.Table.{Table, closed, message, sends, removes, react, react_all}
use hugrs.Session.Table.Flight.{joins, download_delivers}
use hugrs.Session.Run.Failure.{FailsAt, run_reports_failure}
use hugrs.Session.Run.Ending.{turn_of_done_sends_nothing, run_of_empty_mailbox_ends}

-- Quotients of natural numbers stand in for floating-point numbers.
abbrev sample_float : Float64
sample_float = record {
  Float = ℕ × ℕ;
  of_u64 = λ n. (n, 1);
  div = λ a b. (a.0, b.0);
  lt = λ a b. ltb a.0 b.0;
}

sample_float-IsMonotone : IsMonotone sample_float
sample_float-IsMonotone = record { lt-div = λ a b d h. ground arith }

abbrev sample_file : List ℕ
sample_file = 10 ∷ 11 ∷ 12 ∷ 13 ∷ []

abbrev sample_subscriber : Subscriber
sample_subscriber = record { start = 1; last = 2; channel = 7 }

abbrev sample_arrivals : ℕ → List Subscriber
sample_arrivals zero = sample_subscriber ∷ []
sample_arrivals (suc t) = []

abbrev sample_world : ℕ → Turn
sample_world t = record {
  arrivals = sample_arrivals t;
  closed_before = λ c. false;
  closed_after = λ c. false;
  cached_before = [];
  cached_after = [];
  download = λ idx. received (chunk_of sample_file idx);
}

sample_world-later : (t : ℕ) → sample_arrivals (t + 1) ≡ []
sample_world-later t = subst (λ n. sample_arrivals n ≡ []) (plus_one t) refl
  where
    plus_one : (n : ℕ) → suc n ≡ n + 1
    plus_one n = omega arith

sample_world-IsAlone : IsAlone sample_file sample_subscriber sample_world
sample_world-IsAlone = record {
  first = refl;
  later = sample_world-later;
  open_before = λ t. refl;
  open_after = λ t. refl;
  good = λ t idx. refl;
}

run_serves_range_example :
    (b : Actor) × (run sample_float (chunks_of 4 + 2) sample_world 0 (spawn 4 8 0 []) ≡ some b)
    × (stream_of 7 b.sent ≡ ok (11 ∷ 12 ∷ []))
run_serves_range_example =
    run_serves_range sample_float sample_float-IsMonotone sample_file sample_subscriber sample_world
      8 0 [] (omega arith) (omega arith) sample_world-IsAlone

-- An actor whose only chunk is still to come.
abbrev fresh_actor : Actor
fresh_actor = record (spawn 4 8 0 []) { subscribers = sample_subscriber ∷ [] }

-- An actor whose only chunk is completed.
abbrev done_actor : Actor
done_actor = record (spawn 4 8 0 []) { subscribers = sample_subscriber ∷ []; completed = 0 ∷ [] }

zero_is_next : select_next_chunk sample_float fresh_actor ≡ some 0
unfolding select_next_chunk scan_all scan
zero_is_next = refl

done_there : (i : ℕ) → 0 ≤ i → i ≤ 0 → contains i (0 ∷ []) ≡ true
done_there i lo hi = ground arith

turn_of_done_sends_nothing_example :
    (b : Actor) × (turn sample_float (sample_world 1) done_actor ≡ finished b)
    × (b.sent ≡ [])
    × (b.subscribers ≡ [])
unfolding prepare
turn_of_done_sends_nothing_example =
    turn_of_done_sends_nothing sample_float (sample_world 1) done_actor
      ((λ i lo hi. done_there i (omega arith) (omega arith)), tt)

run_of_empty_mailbox_ends_example :
    (b : Actor) × (run sample_float 5 (λ t. sample_world (suc t)) 0 (spawn 4 8 0 []) ≡ some b)
    × (b.sent ≡ [])
run_of_empty_mailbox_ends_example =
    run_of_empty_mailbox_ends sample_float (λ t. sample_world (suc t)) 4 4 8 0 [] refl

abbrev no_downloads : Table
no_downloads = record { entries = []; inbox = [] }

download_delivers_example :
    react (removes (1, 0)) (
      react_all (map (joins (1, 0)) (9 ∷ [])) (
        react
          (sends (1, 0) (ok (10 ∷ [])))
          (react_all (map (joins (1, 0)) (7 ∷ 8 ∷ [])) no_downloads)))
    ≡ record {
      entries = [];
      inbox = (9, closed) ∷ (7, message (ok (10 ∷ []))) ∷ (8, message (ok (10 ∷ []))) ∷ [];
    }
download_delivers_example =
    download_delivers (1, 0) 7 (8 ∷ []) (9 ∷ []) (ok (10 ∷ [])) no_downloads refl

abbrev failing_world : ℕ → Turn
failing_world t = record (sample_world t) { download = λ idx. failed "timeout" }

failing_world-FailsAt : FailsAt sample_file sample_subscriber 0 "timeout" failing_world
failing_world-FailsAt = record {
  first = refl;
  later = sample_world-later;
  open_before = λ t. refl;
  open_after = λ t. refl;
  good = λ t idx h. absurd (omega arith);
  broken = λ t. refl;
}

run_reports_failure_example :
    (b : Actor) × (run sample_float (chunks_of 4 + 2) failing_world 0 (spawn 4 8 0 []) ≡ some b)
    × (stream_of 7 b.sent ≡ err "timeout")
run_reports_failure_example =
    run_reports_failure sample_float sample_float-IsMonotone sample_file sample_subscriber
      failing_world 8 0 0 "timeout" [] (omega arith) (omega arith) (omega arith) (omega arith)
      failing_world-FailsAt
