-- ===== src/Storage/Local.antt =====
-- src/storage/local.rs: a chunk is a file at `root/ab/cd/abcd...`, or the same path with `.zst`.
-- A path is the sharding directories, the name and that suffix: the names are SHA-256 in hexadecimal,
-- so that they have the four characters that the directories are cut from, and none ends in `.zst`.
-- The file system holds bytes at paths; its calls fail only where the source reads a file that is not there. The zstd codec is a
-- parameter.
pub mod RoundTrip
use Prim.Native.String.{slice}
use hugrs.Prelude.{
  ℕ, ◌≡◌, ◌≢◌, String, Bool, true, false, not, ◌&&◌, ◌||◌, Option, none, some, List, Result, ok,
  err, ok_or, str_eq, is_some, ltb, if◌then◌else◌, length,
}
use hugrs.Storage.Trait.{Compression, StorageBackend}

abbrev pub compress_threshold : ℕ
compress_threshold = 4096

pub record ChunkPath : Type 0 where
  pub shard1 : String
  pub shard2 : String
  pub name : String
  pub compressed : Bool

-- `sha256[0..2]` and `sha256[2..4]`
abbrev pub chunk_path : String → ChunkPath
chunk_path sha256 = record {
  shard1 = slice sha256 0 2;
  shard2 = slice sha256 2 4;
  name = sha256;
  compressed = false;
}

abbrev pub compressed_path : String → ChunkPath
compressed_path sha256 = record (chunk_path sha256) { compressed = true }

-- The files of the store, by path; the directories are made as they are needed.
abbrev pub Disk : Type 0
Disk = ChunkPath → Option (List ℕ)

abbrev pub same_path : ChunkPath → ChunkPath → Bool
same_path p q =
    str_eq p.shard1 q.shard1
    && str_eq p.shard2 q.shard2
    && str_eq p.name q.name
    && (if p.compressed then q.compressed else not q.compressed)

-- tokio::fs::write and tokio::fs::remove_file
unfoldable pub write : ChunkPath → Option (List ℕ) → Disk → Disk
write p content d q = if same_path p q then content else d q

pub record Codec : Type 0 where
  pub encode_all : List ℕ → List ℕ
  pub decode_all : List ℕ → Result String (List ℕ)

abbrev pub is_zstd : Compression → Bool
is_zstd Compression.zstd = true
is_zstd Compression.none = false

module _ (codec : Codec) (compression : Compression) where
  unfoldable pub put : String → List ℕ → Disk → Result String ℕ × Disk
  put sha256 bytes d =
      if is_zstd compression && ltb compress_threshold (length bytes)
      then (
        ok (length (codec.encode_all bytes)),
        write (compressed_path sha256) (some (codec.encode_all bytes)) d,
      )
      else (ok (length bytes), write (chunk_path sha256) (some bytes) d)

  read : ChunkPath → Disk → Result String (List ℕ)
  read p d = ok_or (d p) "No such file or directory"

  decode_read : Option (List ℕ) → Result String (List ℕ) → Result String (List ℕ)
  decode_read none plain = plain
  decode_read (some bytes) plain = codec.decode_all bytes

  unfoldable pub get : String → Disk → Result String (List ℕ)
  unfolding read decode_read
  get sha256 d =
      if is_zstd compression
      then decode_read (d (compressed_path sha256)) (read (chunk_path sha256) d)
      else read (chunk_path sha256) d

  unfoldable pub has_key : String → Disk → Result String Bool
  has_key sha256 d = ok (
      is_some (d (chunk_path sha256))
      || is_zstd compression && is_some (d (compressed_path sha256)))

  unfoldable pub delete : String → Disk → Result String (Unit {0}) × Disk
  delete sha256 d =
      let plain = if is_some (d (chunk_path sha256)) then write (chunk_path sha256) none d else d in
      (
        ok tt,
        if is_zstd compression && is_some (plain (compressed_path sha256))
            then write (compressed_path sha256) none plain
            else plain,
      )

  abbrev pub local_backend : StorageBackend
  local_backend = record { Store = Disk; put = put; get = get; has_key = has_key; delete = delete }
