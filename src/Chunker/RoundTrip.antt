-- ===== src/Chunker/RoundTrip.antt =====
-- That chunks give their data back, and how long they are.
use hugrs.Prelude.{
  ℕ, zero, suc, ◌+◌, ◌*◌, ◌≤◌, ◌<◌, ◌≡◌, refl, ap, ◌∙◌, List, [], ◌∷◌, ◌++◌, take, drop, length,
  length-drop, take-append-drop, get_elem?, some, slice, slice-drop, slice-take, slice_at, subst,
  arith,
}
use hugrs.Chunker.{
  chunks, chunk_data, assemble_chunks, ChunkWithHash, with_hashes, chunk_with_hashes, sha256_hex,
}

assemble-chunks :
    (fuel size : ℕ) (xs : List ℕ)
    → 0 < size
    → length xs ≤ fuel
    → assemble_chunks (chunks fuel size xs) ≡ xs
unfolding assemble_chunks chunks
assemble-chunks zero size [] h k = refl
assemble-chunks zero size (x ∷ xs) h k = absurd (omega arith)
assemble-chunks (suc fuel) size [] h k = refl
assemble-chunks (suc fuel) size (x ∷ xs) h k =
    ap (λ r. take size (x ∷ xs) ++ r)
      (assemble-chunks fuel size (drop size (x ∷ xs)) h (omega (arith, length-drop size (x ∷ xs))))
    ∙ take-append-drop size (x ∷ xs)

-- With a positive chunk size, the chunks of any data put together are the data.
pub assemble_chunks-chunk_data :
    (xs : List ℕ) (chunk_size : ℕ)
    → 0 < chunk_size
    → assemble_chunks (chunk_data xs chunk_size) ≡ xs
unfolding chunk_data
assemble_chunks-chunk_data xs chunk_size h =
    assemble-chunks (length xs) chunk_size xs h (omega arith)

-- What `chunk_with_hashes` says of chunk `i`, where it has one.
abbrev pub Describes : (List ℕ → List ℕ) → List ℕ → ℕ → ℕ → ChunkWithHash → Type 0
Describes sha256 xs chunk_size i c =
    (c.chunk_index ≡ i)
    × (c.bytes ≡ slice (i * chunk_size) (i * chunk_size + chunk_size) xs)
    × (c.chunk_size ≡ length c.bytes)
    × (c.sha256 ≡ sha256_hex sha256 c.bytes)

module _ (sha256 : List ℕ → List ℕ) where
  describes-from :
      (fuel size i j : ℕ) (xs : List ℕ) (c : ChunkWithHash)
      → get_elem? (with_hashes sha256 i (chunks fuel size xs)) j ≡ some c
      → (c.chunk_index ≡ i + j)
        × (c.bytes ≡ slice (j * size) (j * size + size) xs)
        × (c.chunk_size ≡ length c.bytes)
        × (c.sha256 ≡ sha256_hex sha256 c.bytes)
  unfolding with_hashes chunks
  describes-from zero size i j xs c e = absurd (ground arith)
  describes-from (suc fuel) size i j [] c e = absurd (ground arith)
  describes-from (suc fuel) size i zero (x ∷ xs) c e =
      subst
        (λ (y : ChunkWithHash).
          (y.chunk_index ≡ i + 0)
          × (y.bytes ≡ slice (0 * size) (0 * size + size) (x ∷ xs))
          × (y.chunk_size ≡ length y.bytes)
          × (y.sha256 ≡ sha256_hex sha256 y.bytes))
        (some-injective e)
        (
          omega arith,
          slice-take size (x ∷ xs)
              ∙ slice_at 0 size (0 * size) (0 * size + size) (x ∷ xs) (omega arith) (omega arith),
          refl,
          refl,
        )
    where
      some-injective : {y z : ChunkWithHash} → some y ≡ some z → y ≡ z
      some-injective h = ground arith
  describes-from (suc fuel) size i (suc j) (x ∷ xs) c e =
      let (k, b, n, h) = describes-from fuel size (suc i) j (drop size (x ∷ xs)) c e in
      (
        k ∙ omega arith,
        b
            ∙ slice-drop (j * size) (j * size + size) size (x ∷ xs)
            ∙ slice_at _ _ (suc j * size) (suc j * size + size) (x ∷ xs) (omega arith)
                (omega arith),
        n,
        h,
      )

  -- Chunk `i` of `chunk_with_hashes`, where there is one, carries its index, the bytes of the data from
  -- `i` chunk sizes on, at most a chunk size of them, their number and their hash.
  pub chunk_with_hashes-Describes :
      (xs : List ℕ) (chunk_size i : ℕ) (c : ChunkWithHash)
      → get_elem? (chunk_with_hashes sha256 xs chunk_size) i ≡ some c
      → Describes sha256 xs chunk_size i c
  unfolding chunk_with_hashes chunk_data
  chunk_with_hashes-Describes xs chunk_size i c e =
      let (k, b, n, h) = describes-from (length xs) chunk_size 0 i xs c e in
      (k ∙ omega arith, b, n, h)
