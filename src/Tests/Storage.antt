-- ===== src/Tests/Storage.antt =====
-- The theorems on the local store and on chunks, with a codec that adds a byte.
use hugrs.Prelude.{ℕ, ◌≡◌, refl, String, true, none, List, [], ◌∷◌, Result, ok, err, arith}
use hugrs.Storage.Trait.{Compression}
use hugrs.Storage.Local.{Codec, Disk, put, get, has_key}
use hugrs.Storage.Local.RoundTrip.{get-put}
use hugrs.Chunker.{chunk_data, assemble_chunks}
use hugrs.Chunker.RoundTrip.{assemble_chunks-chunk_data}

abbrev decode : List ℕ → Result String (List ℕ)
decode [] = err "no frame"
decode (x ∷ xs) = ok xs

abbrev sample_codec : Codec
sample_codec = record { encode_all = λ xs. 40 ∷ xs; decode_all = decode }

abbrev empty_disk : Disk
empty_disk p = none

get-put_example :
    (get sample_codec Compression.zstd "aa11"
        (put sample_codec Compression.zstd "aa11" (1 ∷ 2 ∷ []) empty_disk).1
      ≡ ok (1 ∷ 2 ∷ []))
    × (has_key sample_codec Compression.zstd "aa11"
          (put sample_codec Compression.zstd "aa11" (1 ∷ 2 ∷ []) empty_disk).1
        ≡ ok true)
unfolding has_key
get-put_example =
    get-put sample_codec Compression.zstd "aa11" (1 ∷ 2 ∷ []) empty_disk (λ xs. refl) refl

assemble_chunks-chunk_data_example :
    assemble_chunks (chunk_data (1 ∷ 2 ∷ 3 ∷ []) 2) ≡ 1 ∷ 2 ∷ 3 ∷ []
assemble_chunks-chunk_data_example = assemble_chunks-chunk_data (1 ∷ 2 ∷ 3 ∷ []) 2 (omega arith)
