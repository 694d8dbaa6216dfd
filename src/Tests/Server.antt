-- ===== src/Tests/Server.antt =====
-- The theorems on shared metadata requests, with the key "hf:f".
use hugrs.Prelude.{◌≡◌, refl, [], ◌∷◌, ◌++◌, map, ok}
use hugrs.Server.Singleflight.{
  probe_error, probed, metadata_ready, Inflight, arrives, completes, answer_all, complete, step,
  steps,
}
use hugrs.Server.Singleflight.Answers.{IsStuck, complete_failed-IsStuck}
use hugrs.Server.Singleflight.Flight.{flight_answers_all}

abbrev idle : Inflight
idle = record { leaders = []; working = []; answers = [] }

abbrev led : Inflight
led = record { leaders = ("hf:f", 2 ∷ []) ∷ []; working = ("hf:f", 1) ∷ []; answers = [] }

flight_answers_all_example :
    step
      (completes "hf:f" (probed metadata_ready))
      (steps (map (arrives "hf:f") (1 ∷ 2 ∷ 3 ∷ [])) idle)
    ≡ record idle { answers = answer_all "hf:f" (ok metadata_ready) (1 ∷ 2 ∷ 3 ∷ []) ++ [] }
flight_answers_all_example = flight_answers_all "hf:f" 1 (2 ∷ 3 ∷ []) metadata_ready idle refl refl

complete_failed-IsStuck_example : IsStuck "hf:f" (complete "hf:f" (probe_error "timeout") led)
complete_failed-IsStuck_example =
    complete_failed-IsStuck "hf:f" (probe_error "timeout") led tt refl refl

left-IsStuck : IsStuck "hf:f" (complete "hf:f" (probe_error "timeout") led)
unfolding complete
left-IsStuck = (refl, refl)
