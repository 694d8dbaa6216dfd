-- ===== src/Session/Run/Delivery.antt =====
-- What the one subscriber of a session has read when its chunks up to some index are delivered.
use hugrs.Prelude.{
  ℕ, ◌+◌, ◌*◌, ◌/◌, ◌≤◌, ◌<◌, ◌≡◌, refl, ap, ◌∙◌, Bool, true, false, List, [], ◌∷◌, ◌++◌, ok, ◌==◌,
  length, slice, slice-append, slice_empty, slice_at, append-nil, min, max, arith, dec_lt,
}
use hugrs.Session.Ranges.{chunk_size, chunk_first, chunk_last, chunks_of}
use hugrs.Session.State.{Subscriber, Actor, contains}
use hugrs.Session.Selection.{first_chunk}
use hugrs.Session.Forwarding.{piece, misses, chunk_messages, forward_chunk}
use hugrs.Session.Forwarding.Pieces.{piece-slice, misses_iff}
use hugrs.Session.Run.{deliver}
use hugrs.Session.Run.Stream.{stream_of, read_body, stream-append}

-- The bytes of a chunk of a file.
abbrev pub chunk_of : List ℕ → ℕ → List ℕ
chunk_of file idx = slice (chunk_first idx) (chunk_last (length file) idx + 1) file

-- The chunks of the range before `k` are completed and delivered, and none from `k` on is.
pub record Serving (file : List ℕ) (s : Subscriber) (k : ℕ) (a : Actor) : Type 0 where
  pub total : a.total_size ≡ length file
  pub count : a.chunk_count ≡ max (chunks_of (length file)) 1
  pub done : (i : ℕ) → first_chunk s ≤ i → i < k → contains i a.completed ≡ true
  pub left : (i : ℕ) → k ≤ i → contains i a.completed ≡ false
  pub said :
      stream_of s.channel a.sent ≡ ok (slice s.start (min (k * chunk_size) (s.last + 1)) file)

module _ (file : List ℕ) (s : Subscriber) (ordered : s.start ≤ s.last)
    (inside : s.last < length file) where
  chunk_nonempty :
      (k : ℕ) → k ≤ s.last / chunk_size → chunk_first k < chunk_last (length file) k + 1
  chunk_nonempty k hi = omega arith

  meets :
      (k : ℕ)
      → first_chunk s ≤ k
      → k ≤ s.last / chunk_size
      → misses (chunk_first k) (chunk_of file k) s ≡ false
  meets k lo hi =
      misses_iff file (chunk_first k) (chunk_last (length file) k + 1) s (chunk_nonempty k hi)
        (omega arith)
      ∙ ground arith

  piece-chunk :
      (k : ℕ)
      → first_chunk s ≤ k
      → k ≤ s.last / chunk_size
      → piece (chunk_first k) (chunk_of file k) s
        ≡ slice (max s.start (k * chunk_size)) (min ((k + 1) * chunk_size) (s.last + 1)) file
  piece-chunk k lo hi =
      piece-slice file (chunk_first k) (chunk_last (length file) k + 1) s (chunk_nonempty k hi)
        (omega arith) ordered (meets k lo hi)
      ∙ slice_at _ _ _ _ file refl (omega arith)

  -- What is delivered grows by the piece of the next chunk.
  pub grows :
      (k : ℕ)
      → first_chunk s ≤ k
      → k ≤ s.last / chunk_size
      → slice s.start (min (k * chunk_size) (s.last + 1)) file
          ++ piece (chunk_first k) (chunk_of file k) s
        ≡ slice s.start (min ((k + 1) * chunk_size) (s.last + 1)) file
  grows k lo hi = elim (dec_lt s.start (k * chunk_size)) [
    | yes behind ↦
        ap (λ r. slice s.start (min (k * chunk_size) (s.last + 1)) file ++ r)
          (piece-chunk k lo hi
            ∙ slice_at _ _ (min (k * chunk_size) (s.last + 1)) _ file (omega arith) refl)
        ∙ slice-append s.start (min (k * chunk_size) (s.last + 1))
            (min ((k + 1) * chunk_size) (s.last + 1)) file (omega arith) (omega arith)
    | no at_start ↦
        ap (λ r. r ++ piece (chunk_first k) (chunk_of file k) s)
          (slice_empty s.start (min (k * chunk_size) (s.last + 1)) file (omega arith))
        ∙ piece-chunk k lo hi
        ∙ slice_at _ _ s.start _ file (omega arith) refl
  ]

  one_message :
      (is_closed : ℕ → Bool) (k : ℕ)
      → first_chunk s ≤ k
      → k ≤ s.last / chunk_size
      → is_closed s.channel ≡ false
      → chunk_messages is_closed (chunk_first k) (chunk_of file k) (s ∷ [])
        ≡ record { to = s.channel; body = ok (piece (chunk_first k) (chunk_of file k) s) } ∷ []
  unfolding chunk_messages
  one_message is_closed k lo hi is_open = rw (meets k lo hi, is_open) refl

  read_one :
      (bytes : List ℕ)
      → stream_of s.channel (record { to = s.channel; body = ok bytes } ∷ [])
        ≡ read_body (ok bytes) (ok [])
  unfolding stream_of
  read_one bytes = rw (same s.channel) refl
    where
      same : (n : ℕ) → (n == n) ≡ true
      same n = ground arith

  pub deliver-Serving :
      (is_closed : ℕ → Bool) (k : ℕ) (a : Actor)
      → first_chunk s ≤ k
      → k ≤ s.last / chunk_size
      → is_closed s.channel ≡ false
      → a.subscribers ≡ s ∷ []
      → Serving file s k a
      → Serving file s (k + 1) (deliver is_closed k (chunk_of file k) a)
  unfolding deliver forward_chunk
  deliver-Serving is_closed k a lo hi is_open alone h = record {
    total = h.total;
    count = h.count;
    done = λ i p q. elim (dec_lt i k) [
      | yes lt ↦ ground (arith, h.done i p lt)
      | no ge ↦ ground arith
    ];
    left = λ i p. ground (arith, h.left i (omega arith));
    said =
        stream-append s.channel a.sent _
        ∙ ap (λ ms. read_body (stream_of s.channel a.sent) (stream_of s.channel ms))
            (ap (chunk_messages is_closed (chunk_first k) (chunk_of file k)) alone
              ∙ one_message is_closed k lo hi is_open)
        ∙ ap (read_body (stream_of s.channel a.sent))
            (read_one (piece (chunk_first k) (chunk_of file k) s))
        ∙ ap (λ r. read_body r (ok (piece (chunk_first k) (chunk_of file k) s ++ []))) h.said
        ∙ ap (λ r. ok (slice s.start (min (k * chunk_size) (s.last + 1)) file ++ r)) (append-nil _)
        ∙ ap ok (grows k lo hi);
  }

  -- A record that differs in the prefetches, the cache and the subscribers only.
  pub Serving-same :
      (k : ℕ) (a b : Actor)
      → b.total_size ≡ a.total_size
      → b.chunk_count ≡ a.chunk_count
      → b.completed ≡ a.completed
      → b.sent ≡ a.sent
      → Serving file s k a
      → Serving file s k b
  Serving-same k a b t c d m h = record {
    total = t ∙ h.total;
    count = c ∙ h.count;
    done = λ i p q. ap (contains i) d ∙ h.done i p q;
    left = λ i p. ap (contains i) d ∙ h.left i p;
    said = ap (stream_of s.channel) m ∙ h.said;
  }
