-- ===== src/Storage/Local/RoundTrip.antt =====
-- What the local store promises: a chunk that was put is read back, by whichever of its two files
-- the setting chose, and names do not disturb one another.
use Prim.Native.String.{slice}
use hugrs.Prelude.{
  ℕ, ◌≡◌, ◌≢◌, String, true, false, ◌&&◌, Option, none, some, List, ok, eq_iff, eq_refl, ltb,
  length, Bool-cases, inl, inr, arith,
}
use hugrs.Storage.Trait.{Compression, IsSeparate}
use hugrs.Storage.Local.{
  Codec, Disk, chunk_path, compressed_path, write, put, get, has_key, delete, local_backend,
  is_zstd, compress_threshold,
}

-- A write is seen at its own path alone.
module _ (k : String) (content : Option (List ℕ)) (d : Disk) where
  write-plain : write (chunk_path k) content d (chunk_path k) ≡ content
  unfolding write
  write-plain = ground (arith, eq_refl k, eq_refl (slice k 0 2), eq_refl (slice k 2 4))

  write-zst : write (compressed_path k) content d (compressed_path k) ≡ content
  unfolding write
  write-zst = ground (arith, eq_refl k, eq_refl (slice k 0 2), eq_refl (slice k 2 4))

  write_plain-zst :
      (j : String) → write (chunk_path k) content d (compressed_path j) ≡ d (compressed_path j)
  unfolding write
  write_plain-zst j = ground arith

  write_zst-plain :
      (j : String) → write (compressed_path k) content d (chunk_path j) ≡ d (chunk_path j)
  unfolding write
  write_zst-plain j = ground arith

  write-plain_ne :
      (j : String) → k ≢ j → write (chunk_path k) content d (chunk_path j) ≡ d (chunk_path j)
  unfolding write
  write-plain_ne j ne = ground (arith, eq_iff k j)

  write-zst_ne :
      (j : String)
      → k ≢ j
      → write (compressed_path k) content d (compressed_path j) ≡ d (compressed_path j)
  unfolding write
  write-zst_ne j ne = ground (arith, eq_iff k j)

module _ (codec : Codec) (compression : Compression) where
  -- For a codec that decodes what it encodes, a chunk that is put under a free name is there and
  -- is read back as it was, whether or not it is compressed on the way.
  pub get-put :
      (sha256 : String) (bytes : List ℕ) (d : Disk)
      → ((xs : List ℕ) → codec.decode_all (codec.encode_all xs) ≡ ok xs)
      → has_key codec compression sha256 d ≡ ok false
      → (get codec compression sha256 (put codec compression sha256 bytes d).1 ≡ ok bytes)
        × (has_key codec compression sha256 (put codec compression sha256 bytes d).1 ≡ ok true)
  unfolding put get has_key
  get-put sha256 bytes d codec_law free =
      elim (Bool-cases (is_zstd compression && ltb compress_threshold (length bytes))) [
        | inl packed ↦ rw packed (
          ground
              (arith, packed, codec_law bytes, write-zst sha256 (some (codec.encode_all bytes)) d),
          ground (arith, packed, write-zst sha256 (some (codec.encode_all bytes)) d),
        )
        | inr plain ↦ rw plain (
          ground (
            arith,
            free,
            write-plain sha256 (some bytes) d,
            write_plain-zst sha256 (some bytes) d sha256,
          ),
          ground (arith, write-plain sha256 (some bytes) d),
        )
      ]

  -- After a deletion the name is free.
  pub has_key-delete :
      (sha256 : String) (d : Disk)
      → has_key codec compression sha256 (delete codec compression sha256 d).1 ≡ ok false
  unfolding delete has_key
  has_key-delete sha256 d = ground (
    arith,
    write-plain sha256 none d,
    write-zst sha256 none d,
    write-zst sha256 none (write (chunk_path sha256) none d),
    write_zst-plain sha256 none d sha256,
    write_zst-plain sha256 none (write (chunk_path sha256) none d) sha256,
    write_plain-zst sha256 none d sha256,
  )

  -- A put or a deletion under one name leaves what is read under every other name.
  pub local-IsSeparate : IsSeparate (local_backend codec compression)
  unfolding put get delete
  local-IsSeparate = record {
    get-put_ne = λ k j bytes d ne. ground (
      arith,
      write-zst_ne k (some (codec.encode_all bytes)) d j ne,
      write_zst-plain k (some (codec.encode_all bytes)) d j,
      write_plain-zst k (some bytes) d j,
      write-plain_ne k (some bytes) d j ne,
    );
    get-delete_ne = λ k j d ne. ground (
      arith,
      write-zst_ne k none d j ne,
      write-zst_ne k none (write (chunk_path k) none d) j ne,
      write_zst-plain k none d j,
      write_zst-plain k none (write (chunk_path k) none d) j,
      write_plain-zst k none d j,
      write-plain_ne k none d j ne,
    );
  }
