-- ===== src/Server/Singleflight.antt =====
-- `reconcile_metadata_singleflight` of src/server.rs. The requests that share a key are events on
-- one state: a call arrives and leads or waits, and a leader's work completes. What a call returns
-- is its answer. The guard of the mutex makes each event a step.
pub mod Answers
pub mod Flight
use hugrs.Prelude.{
  ℕ, String, Bool, true, false, not, Option, none, some, List, [], ◌∷◌, ◌++◌, map, Result, ok, err,
  str_eq, if◌then◌else◌, any_of, select, find,
}

pub data MetadataReconcileOutcome : Type 0 where
  metadata_ready : MetadataReconcileOutcome
  forward_head_failure : ℕ → List (String × String) → MetadataReconcileOutcome

-- What the leader's probe, and the reconciliation after it, come to.
pub data Probe : Type 0 where
  probe_error : String → Probe
  reconcile_error : String → Probe
  probed : MetadataReconcileOutcome → Probe

pub record Answer : Type 0 where
  pub key : String
  pub caller : ℕ
  pub result : Result String MetadataReconcileOutcome

-- `leaders` is the map of the source; `working` are the leaders whose work is not completed.
pub record Inflight : Type 0 where
  pub leaders : List (String × List ℕ)
  pub working : List (String × ℕ)
  pub answers : List Answer

pub data Event : Type 0 where
  arrives : String → ℕ → Event
  completes : String → Probe → Event

abbrev pub is_key : {A : Type 0} → String → String × A → Bool
is_key key e = str_eq e.0 key

abbrev pub leads : String → Inflight → Bool
leads key st = any_of (is_key key) st.leaders

abbrev pub add_waiter : String → ℕ → String × List ℕ → String × List ℕ
add_waiter key caller e = if is_key key e then (e.0, e.1 ++ caller ∷ []) else e

unfoldable pub arrive : String → ℕ → Inflight → Inflight
arrive key caller st =
    if leads key st
    then record st { leaders = map (add_waiter key caller) st.leaders }
    else record st { leaders = (key, []) ∷ st.leaders; working = (key, caller) ∷ st.working }

abbrev pub waiters_of : Option (String × List ℕ) → List ℕ
waiters_of none = []
waiters_of (some e) = e.1

abbrev pub answer_all : String → Result String MetadataReconcileOutcome → List ℕ → List Answer
answer_all key result = map (λ c. record { key = key; caller = c; result = result })

-- The `?` on the probe and on the reconciliation returns before the key is removed.
abbrev pub conclude : String → ℕ → Probe → Inflight → Inflight
conclude key leader (probe_error e) st = record st {
  answers = answer_all key (err e) (leader ∷ []) ++ st.answers;
}
conclude key leader (reconcile_error e) st = record st {
  answers = answer_all key (err e) (leader ∷ []) ++ st.answers;
}
conclude key leader (probed o) st = record st {
  leaders = select (λ e. not (is_key key e)) st.leaders;
  answers =
      answer_all key (ok o) (leader ∷ waiters_of (find (is_key key) st.leaders)) ++ st.answers;
}

abbrev pub stop_working : String → Inflight → Inflight
stop_working key st = record st { working = select (λ e. not (is_key key e)) st.working }

abbrev pub complete_found : String → Probe → Option (String × ℕ) → Inflight → Inflight
complete_found key probe none st = st
complete_found key probe (some e) st = conclude key e.1 probe (stop_working key st)

unfoldable pub complete : String → Probe → Inflight → Inflight
complete key probe st = complete_found key probe (find (is_key key) st.working) st

unfoldable pub step : Event → Inflight → Inflight
unfolding arrive complete
step (arrives key caller) st = arrive key caller st
step (completes key probe) st = complete key probe st

unfoldable pub steps : List Event → Inflight → Inflight
unfolding step
steps [] st = st
steps (e ∷ es) st = steps es (step e st)
