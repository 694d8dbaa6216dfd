-- ===== src/Service/Stream/Order.antt =====
-- The reads ahead change nothing of what is sent.
use hugrs.Prelude.{
  ℕ, zero, suc, ◌+◌, ◌≡◌, refl, sym, ap, subst, ◌∙◌, String, ◌&&◌, Option, none, some, List, [],
  ◌∷◌, Result, ltb, length, get_elem?, Bool-cases, inl, inr, arith, fun_ext,
}
use hugrs.Metadata.Tables.{FileChunk}
use hugrs.Session.State.{Subscriber}
use hugrs.Session.Forwarding.{piece}
use hugrs.Service.Stream.{Source, read, enqueue, refill, front, behind, send, emit}

module _ (src : Source) (store : src.backend.Store) where
  -- The stream without a queue: each chunk is read when its turn comes.
  unfoldable pub plain : Subscriber → ℕ → List FileChunk → List (Result String (List ℕ))
  plain s offset [] = []
  plain s offset (ft ∷ rest) =
      send src store (read src store ft) (λ bytes. piece offset bytes s)
        (λ bytes. plain s (offset + length bytes) rest)

  -- The queue holds the reads of the next chunks, in order.
  abbrev IsAhead : List (Result String (List ℕ)) → List FileChunk → Type 0
  IsAhead [] fts = Unit
  IsAhead (r ∷ q) [] = ⊥
  IsAhead (r ∷ q) (ft ∷ fts) = (r ≡ read src store ft) × IsAhead q fts

  enqueue-IsAhead :
      (q : List (Result String (List ℕ))) (fts : List FileChunk)
      → IsAhead q fts
      → IsAhead (enqueue src store q (get_elem? fts (length q))) fts
  enqueue-IsAhead [] [] a = tt
  enqueue-IsAhead [] (ft ∷ fts) a = (refl, tt)
  enqueue-IsAhead (r ∷ q) [] a = absurd a
  enqueue-IsAhead (r ∷ q) (ft ∷ fts) a =
      subst (λ x. IsAhead x (ft ∷ fts)) (sym (behind_first (get_elem? fts (length q))))
        (a.0, enqueue-IsAhead q fts a.1)
    where
      behind_first :
          (o : Option FileChunk) → enqueue src store (r ∷ q) o ≡ r ∷ enqueue src store q o
      behind_first none = refl
      behind_first (some x) = refl

  refill-IsAhead :
      (fuel i : ℕ) (relevant fts : List FileChunk) (q : List (Result String (List ℕ)))
      → ((j : ℕ) → get_elem? relevant (i + j + 1) ≡ get_elem? fts j)
      → IsAhead q fts
      → IsAhead (refill src store fuel relevant i q) fts
  unfolding refill
  refill-IsAhead zero i relevant fts q at a = a
  refill-IsAhead (suc fuel) i relevant fts q at a =
      elim (Bool-cases
        (ltb (length q) src.prefetch_depth && ltb (i + length q + 1) (length relevant))) [
          | inl more ↦
              rw (more, at (length q))
                (refill-IsAhead fuel i relevant fts (enqueue src store q (get_elem? fts (length q)))
                  at (enqueue-IsAhead q fts a))
          | inr full ↦ rw full a
        ]

  front-IsAhead :
      (ft : FileChunk) (fts : List FileChunk) (q : List (Result String (List ℕ)))
      → IsAhead q (ft ∷ fts)
      → (front src store ft q ≡ read src store ft) × IsAhead (behind src store q) fts
  front-IsAhead ft fts [] a = (refl, tt)
  front-IsAhead ft fts (r ∷ q) a = a

  emit-plain :
      (s : Subscriber) (relevant fts : List FileChunk) (i offset : ℕ)
      (q : List (Result String (List ℕ)))
      → ((j : ℕ) → get_elem? relevant (i + j) ≡ get_elem? fts j)
      → IsAhead q fts
      → emit src store relevant s i offset q fts ≡ plain s offset fts
  unfolding emit plain
  emit-plain s relevant [] i offset q at a = refl
  emit-plain s relevant (ft ∷ fts) i offset q at a =
      let (now, later) = front-IsAhead ft fts q a in
      ap
        (λ r.
          send src store r (λ bytes. piece offset bytes s)
            (λ bytes.
              emit src store relevant s (i + 1) (offset + length bytes)
                (refill src store src.prefetch_depth relevant i (behind src store q)) fts))
        now
      ∙ ap (send src store (read src store ft) (λ bytes. piece offset bytes s)) (
          fun_ext (λ bytes.
            emit-plain s relevant fts (i + 1) (offset + length bytes) _
              (λ j. ap (get_elem? relevant) (past i j) ∙ at (suc j))
              (refill-IsAhead src.prefetch_depth i relevant fts (behind src store q)
                (λ j. ap (get_elem? relevant) (after i j) ∙ at (suc j)) later)))
    where
      past : (a b : ℕ) → a + 1 + b ≡ a + suc b
      past a b = omega arith

      after : (a b : ℕ) → a + b + 1 ≡ a + suc b
      after a b = omega arith

-- Whatever the depth, the stream that reads ahead sends what the stream that reads each chunk in its
-- turn sends.
pub emit_reads_in_turn :
    (src : Source) (store : src.backend.Store) (s : Subscriber) (offset : ℕ)
    (relevant : List FileChunk)
    → emit src store relevant s 0 offset [] relevant ≡ plain src store s offset relevant
emit_reads_in_turn src store s offset relevant =
    emit-plain src store s relevant relevant 0 offset []
      (λ j. ap (get_elem? relevant) (zero_plus j)) tt
  where
    zero_plus : (j : ℕ) → 0 + j ≡ j
    zero_plus j = omega arith
