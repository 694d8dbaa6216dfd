-- ===== src/Session/Forwarding.antt =====
-- `forward_chunk`, `forward_error` and `clean_subscribers` of src/session.rs. Whether the receiver
-- of a channel has gone is a parameter; a message to a closed channel is dropped. A channel takes any
-- number of messages: the wait for room in a full one is left out.
pub mod Pieces
use hugrs.Prelude.{
  ℕ, ◌+◌, ◌-◌, String, Bool, true, false, not, ◌||◌, List, [], ◌∷◌, ◌++◌, Result, ok, err, ltb,
  if◌then◌else◌, length, select, slice,
}
use hugrs.Session.State.{Subscriber, Message, Actor}

-- The part of a chunk at `chunk_start` that a subscriber gets.
abbrev pub piece : ℕ → List ℕ → Subscriber → List ℕ
piece chunk_start bytes s =
    let chunk_end = chunk_start + length bytes - 1 in
    let sl_start = if ltb chunk_start s.start then s.start - chunk_start else 0 in
    let sl_end = if ltb s.last chunk_end then s.last - chunk_start + 1 else length bytes in
    slice sl_start sl_end bytes

-- The chunk and the range do not meet.
abbrev pub misses : ℕ → List ℕ → Subscriber → Bool
misses chunk_start bytes s = ltb (chunk_start + length bytes - 1) s.start || ltb s.last chunk_start

-- The messages of one chunk, in the order of the subscribers.
unfoldable pub chunk_messages : (ℕ → Bool) → ℕ → List ℕ → List Subscriber → List Message
chunk_messages is_closed chunk_start bytes [] = []
chunk_messages is_closed chunk_start bytes (s ∷ ss) =
    let rest = chunk_messages is_closed chunk_start bytes ss in
    if misses chunk_start bytes s || is_closed s.channel
    then rest
    else record { to = s.channel; body = ok (piece chunk_start bytes s) } ∷ rest

unfoldable pub forward_chunk : (ℕ → Bool) → ℕ → List ℕ → Actor → Actor
unfolding chunk_messages
forward_chunk is_closed chunk_start bytes a = record a {
  sent = a.sent ++ chunk_messages is_closed chunk_start bytes a.subscribers;
}

unfoldable pub error_messages : (ℕ → Bool) → String → List Subscriber → List Message
error_messages is_closed message [] = []
error_messages is_closed message (s ∷ ss) =
    let rest = error_messages is_closed message ss in
    if is_closed s.channel then rest else record { to = s.channel; body = err message } ∷ rest

unfoldable pub forward_error : (ℕ → Bool) → String → Actor → Actor
unfolding error_messages
forward_error is_closed message a = record a {
  sent = a.sent ++ error_messages is_closed message a.subscribers;
}

unfoldable pub clean_subscribers : (ℕ → Bool) → Actor → Actor
clean_subscribers is_closed a = record a {
  subscribers = select (λ s. not (is_closed s.channel)) a.subscribers;
}
