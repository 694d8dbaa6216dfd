-- ===== src/Session/Fetch/Saved.antt =====
-- What `fetch_chunk` leaves behind when it hands out bytes.
use hugrs.Prelude.{
  ℕ, ◌+◌, ◌%◌, ◌^◌, ◌≡◌, refl, ap, sym, subst₂, ◌∙◌, ◌⊎◌, inl, inr, String, Bool, true, false, ◌&&◌,
  some, List, [], ◌∷◌, Result, ok, err, ◌==◌, length, Bool-cases, arith,
}
use hugrs.Session.Fetch.{
  ChunkReader, FetchState, Outcome, fetched, failed, panicked, put_error, lookup, differs, or_false,
  put_new, record_chunk, save, path_of,
}

module _ (r : ChunkReader) where
  -- The chunk's bytes are named by their hash, which the map of cached chunks and one new event
  -- give for the chunk; the store has the name, or did not say so and was asked to put the bytes.
  pub record IsSaved (file_id idx : ℕ) (bytes : List ℕ) (st after : FetchState r) : Type 0 where
    pub cached : lookup idx after.cached_chunks ≡ some (r.sha256_hex bytes)
    pub announced :
        (stored : ℕ) × (after.events
          ≡ record {
            sha256 = r.sha256_hex bytes;
            path = path_of (r.sha256_hex bytes);
            data_len = length bytes;
            stored_size = stored;
            file_id = file_id;
            chunk_idx = idx;
          }
            ∷ st.events)
    pub stored :
        ((r.backend.has_key (r.sha256_hex bytes) st.store ≡ ok true) × (after.store ≡ st.store))
        ⊎ ((or_false (r.backend.has_key (r.sha256_hex bytes) st.store) ≡ false)
            × (after.store ≡ (r.backend.put (r.sha256_hex bytes) bytes st.store).1))

  -- Whether the name is there decides.
  has_key-cases : (h : Result String Bool) → (h ≡ ok true) ⊎ (or_false h ≡ false)
  has_key-cases (ok true) = inl refl
  has_key-cases (ok false) = inr refl
  has_key-cases (err e) = inr refl

  -- Where the name was, or that it was asked for.
  abbrev Stored : String → List ℕ → r.backend.Store → r.backend.Store → Type 0
  Stored sha256 bytes before after =
      ((r.backend.has_key sha256 before ≡ ok true) × (after ≡ before))
      ⊎ ((or_false (r.backend.has_key sha256 before) ≡ false)
          × (after ≡ (r.backend.put sha256 bytes before).1))

  put_new-Stored :
      (sha256 : String) (bytes : List ℕ) (s : r.backend.Store)
      → Stored sha256 bytes s (put_new r sha256 bytes s).1
  unfolding put_new
  put_new-Stored sha256 bytes s = elim (has_key-cases (r.backend.has_key sha256 s)) [
    | inl there ↦ inl (there, rw there refl)
    | inr free ↦ inr (free, rw free refl)
  ]

  abbrev bytes_in : Outcome → List ℕ
  bytes_in (fetched bytes) = bytes
  bytes_in (failed e) = []
  bytes_in panicked = []

  record_chunk-IsSaved :
      (file_id idx : ℕ) (bytes given : List ℕ) (put : Result String ℕ × r.backend.Store)
      (st after : FetchState r)
      → record_chunk r file_id idx (r.sha256_hex bytes) bytes put st ≡ (fetched given, after)
      → Stored (r.sha256_hex bytes) bytes st.store put.1
      → (given ≡ bytes) × IsSaved file_id idx given st after
  unfolding record_chunk
  record_chunk-IsSaved file_id idx bytes given (err e, s) st after h c =
      absurd (failed_ne (ap (λ x. x.0) h))
    where
      failed_ne : ◌≡◌ {A = Outcome} (failed (put_error e)) (fetched given) → ⊥
      failed_ne k = ground arith
  record_chunk-IsSaved file_id idx bytes given (ok n, s) st after h c = (
    same,
    subst₂ (λ b a. IsSaved file_id idx b st a) (ap (λ x. bytes_in x.0) h) (ap (λ x. x.1) h)
        (record { cached = rw (lookup, found idx) refl; announced = (n, refl); stored = c }),
  )
    where
      same : given ≡ bytes
      same = sym (ap (λ x. bytes_in x.0) h)

      found : (i : ℕ) → (i == i) ≡ true
      found i = ground arith

  -- When the last part of `fetch_chunk` hands out bytes, they are the bytes that it was given; the
  -- map of cached chunks gives their hash for the chunk, exactly one new event names them by their
  -- hash, and the store had that name and is as it was, or did not say that it has it and was asked to
  -- put the bytes under it.
  pub save-IsSaved :
      (file_id idx : ℕ) (bytes given : List ℕ) (st after : FetchState r)
      → save r file_id idx bytes st ≡ (fetched given, after)
      → (given ≡ bytes) × IsSaved file_id idx given st after
  unfolding save
  save-IsSaved file_id idx bytes given st after h =
      elim (Bool-cases
        (r.verify_sha256 && differs (lookup idx st.cached_chunks) (r.sha256_hex bytes))) [
          | inl bad ↦ absurd (ground arith)
          | inr good ↦
              let (same, k) =
                record_chunk-IsSaved file_id idx bytes given
                  (put_new r (r.sha256_hex bytes) bytes st.store) counted after
                  (sym (chosen good) ∙ h) (put_new-Stored (r.sha256_hex bytes) bytes st.store) in
              (same, record { cached = k.cached; announced = k.announced; stored = k.stored })
        ]
    where
      counted : FetchState r
      counted = record st { fetched_bytes = (st.fetched_bytes + length bytes) % 2 ^ 64 }

      chosen :
          (r.verify_sha256 && differs (lookup idx st.cached_chunks) (r.sha256_hex bytes)) ≡ false
          → save r file_id idx bytes st
            ≡ record_chunk r file_id idx
                (r.sha256_hex bytes)
                bytes
                (put_new r (r.sha256_hex bytes) bytes st.store)
                counted
      chosen e = rw e refl
