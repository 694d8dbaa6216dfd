-- ===== src/Chunker.antt =====
-- src/chunker.rs: data is cut into chunks and put together again. The digest of the crate sha2 is a
-- parameter.
pub mod RoundTrip
use Prim.Native.String.{String as Text}
use Prim.Native.Char.{Char}
use Prim.Native.String.{◌++◌ as str_append, slice as str_slice}
use hugrs.Prelude.{
  ℕ, zero, suc, ◌+◌, ◌-◌, ◌/◌, ◌%◌, ◌≤◌, String, List, [], ◌∷◌, ◌++◌, map, Bool, true, false, take,
  drop, length, Option, none, some, if◌then◌else◌, leb,
}

-- The text of a nibble in `{:02x}`.
abbrev pub hex_digit : ℕ → String
hex_digit d = str_slice "0123456789abcdef" d (d + 1)

abbrev pub hex : List ℕ → String
hex [] = ""
hex (b ∷ bs) = str_append (hex_digit (b / 16)) (str_append (hex_digit (b % 16)) (hex bs))

-- The fuel of `chunks`: every chunk but the last takes a byte at least.
unfoldable pub chunks : ℕ → ℕ → List ℕ → List (List ℕ)
chunks zero size xs = []
chunks (suc fuel) size [] = []
chunks (suc fuel) size (x ∷ xs) = take size (x ∷ xs) ∷ chunks fuel size (drop size (x ∷ xs))

-- `data.chunks(chunk_size)`
unfoldable pub chunk_data : List ℕ → ℕ → List (List ℕ)
unfolding chunks
chunk_data xs chunk_size = chunks (length xs) chunk_size xs

unfoldable pub assemble_chunks : List (List ℕ) → List ℕ
assemble_chunks [] = []
assemble_chunks (c ∷ cs) = c ++ assemble_chunks cs

pub record ChunkWithHash : Type 0 where
  pub chunk_index : ℕ
  pub sha256 : String
  pub chunk_size : ℕ
  pub bytes : List ℕ

module _ (sha256 : List ℕ → List ℕ) where
  abbrev pub sha256_hex : List ℕ → String
  sha256_hex xs = hex (sha256 xs)

  -- The chunks with their indices, from `i` on.
  unfoldable pub with_hashes : ℕ → List (List ℕ) → List ChunkWithHash
  with_hashes i [] = []
  with_hashes i (c ∷ cs) =
      record { chunk_index = i; sha256 = sha256_hex c; chunk_size = length c; bytes = c }
      ∷ with_hashes (suc i) cs

  unfoldable pub chunk_with_hashes : List ℕ → ℕ → List ChunkWithHash
  unfolding with_hashes chunk_data
  chunk_with_hashes xs chunk_size = with_hashes 0 (chunk_data xs chunk_size)
