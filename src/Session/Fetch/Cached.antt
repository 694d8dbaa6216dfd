-- ===== src/Session/Fetch/Cached.antt =====
-- What `read_cached_chunk` hands out.
use hugrs.Prelude.{
  ℕ, ◌≡◌, refl, ◌⊎◌, inl, inr, String, true, none, some, List, Result, ok, err, eq_iff, length,
  Bool-cases, arith,
}
use hugrs.Session.Fetch.{ChunkReader, verified, check_read, read_cached_chunk}

module _ (r : ChunkReader) where
  check_read-cases :
      (sha256 : String) (expected : ℕ) (x : Result String (List ℕ)) (s : r.backend.Store)
      → r.verify_sha256 ≡ true
      → ((bytes : List ℕ) × (x ≡ ok bytes)
          × (check_read r sha256 (some expected) x s ≡ (some bytes, s))
          × (r.sha256_hex bytes ≡ sha256)
          × (length bytes ≡ expected))
        ⊎ ((e : String) × (x ≡ err e) × (check_read r sha256 (some expected) x s ≡ (none, s)))
        ⊎ (check_read r sha256 (some expected) x s ≡ (none, (r.backend.delete sha256 s).1))
  check_read-cases sha256 expected (err e) s v = inr (inl (e, refl, refl))
  check_read-cases sha256 expected (ok raw) s v =
      elim (Bool-cases (verified r sha256 (some expected) raw)) [
        | inl good ↦ inl (
          raw,
          refl,
          rw (v, good) refl,
          ground (arith, eq_iff (r.sha256_hex raw) sha256),
          ground arith,
        )
        | inr bad ↦ inr (inr (rw (v, bad) refl))
      ]

  -- With verification on, a chunk is handed out only when the store has it, its hash is its name and
  -- its length the expected one, and the store stays as it is. Else nothing is handed out: the
  -- store stays as it is where it could not be read, or the chunk is deleted.
  pub read_cached_chunk_verifies :
      (sha256 : String) (expected : ℕ) (s : r.backend.Store)
      → r.verify_sha256 ≡ true
      → ((bytes : List ℕ) × (r.backend.get sha256 s ≡ ok bytes)
          × (read_cached_chunk r sha256 (some expected) s ≡ (some bytes, s))
          × (r.sha256_hex bytes ≡ sha256)
          × (length bytes ≡ expected))
        ⊎ ((e : String) × (r.backend.get sha256 s ≡ err e)
            × (read_cached_chunk r sha256 (some expected) s ≡ (none, s)))
        ⊎ (read_cached_chunk r sha256 (some expected) s ≡ (none, (r.backend.delete sha256 s).1))
  unfolding read_cached_chunk
  read_cached_chunk_verifies sha256 expected s v =
      check_read-cases sha256 expected (r.backend.get sha256 s) s v
