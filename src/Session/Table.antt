-- ===== src/Session/Table.antt =====
-- `SessionTable::subscribe` of src/session.rs: one download for each chunk, shared by its receivers
-- through a broadcast channel. A receiver gets what is sent after it has joined, and learns that the
-- channel is closed when the entry goes. The read of a cached chunk is an argument; the download is
-- `fetch_chunk`, whose result is sent before the entry is removed.
pub mod Flight
use hugrs.Prelude.{
  ℕ, String, Bool, true, false, not, ◌&&◌, Option, none, some, List, [], ◌∷◌, ◌++◌, map, Result, ok,
  err, ◌==◌, if◌then◌else◌, any_of, select, find,
}

-- The file and the index of a chunk.
abbrev pub Key : Type 0
Key = ℕ × ℕ

abbrev pub same_key : Key → Key → Bool
same_key a b = (a.0 == b.0) && (a.1 == b.1)

pub data Delivery : Type 0 where
  message : Result String (List ℕ) → Delivery
  closed : Delivery

-- The entries with the receivers that wait, and what receivers have got.
pub record Table : Type 0 where
  pub entries : List (Key × List ℕ)
  pub inbox : List (ℕ × Delivery)

pub data Event : Type 0 where
  subscribes : Key → ℕ → Option (List ℕ) → Event
  sends : Key → Result String (List ℕ) → Event
  removes : Key → Event

abbrev pub is_entry : Key → Key × List ℕ → Bool
is_entry key e = same_key e.0 key

abbrev pub join : Key → ℕ → Key × List ℕ → Key × List ℕ
join key receiver e = if is_entry key e then (e.0, e.1 ++ receiver ∷ []) else e

-- A cached chunk is sent at once on a channel of its own; else the receiver joins the entry, and a
-- download is started where there is none.
unfoldable pub subscribe : Key → ℕ → Option (List ℕ) → Table → Table
subscribe key receiver (some bytes) t = record t {
  inbox = (receiver, message (ok bytes)) ∷ t.inbox;
}
subscribe key receiver none t =
    if any_of (is_entry key) t.entries
    then record t { entries = map (join key receiver) t.entries }
    else record t { entries = (key, receiver ∷ []) ∷ t.entries }

abbrev pub waiting_of : Option (Key × List ℕ) → List ℕ
waiting_of none = []
waiting_of (some e) = e.1

abbrev pub deliver_all : Delivery → List ℕ → List (ℕ × Delivery)
deliver_all d = map (λ r. (r, d))

abbrev pub empty_entry : Key → Key × List ℕ → Key × List ℕ
empty_entry key e = if is_entry key e then (e.0, []) else e

-- `tx.send(..)`
unfoldable pub send : Key → Result String (List ℕ) → Table → Table
send key result t = record {
  entries = map (empty_entry key) t.entries;
  inbox = deliver_all (message result) (waiting_of (find (is_entry key) t.entries)) ++ t.inbox;
}

-- `map.remove(&key)`, after which no sender is left.
unfoldable pub remove_entry : Key → Table → Table
remove_entry key t = record {
  entries = select (λ e. not (is_entry key e)) t.entries;
  inbox = deliver_all closed (waiting_of (find (is_entry key) t.entries)) ++ t.inbox;
}

unfoldable pub react : Event → Table → Table
unfolding subscribe send remove_entry
react (subscribes key receiver cached) t = subscribe key receiver cached t
react (sends key result) t = send key result t
react (removes key) t = remove_entry key t

unfoldable pub react_all : List Event → Table → Table
unfolding react
react_all [] t = t
react_all (e ∷ es) t = react_all es (react e t)
