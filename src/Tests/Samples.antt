-- ===== src/Tests/Samples.antt =====
-- A small database, made by calls of src/metadata.rs: one file with one chunk.
use hugrs.Prelude.{String, List, [], ◌∷◌, some, ok}
use hugrs.Storage.Trait.{Compression, StorageBackend}
use hugrs.Storage.Local.{Codec, Disk, local_backend}
use hugrs.Metadata.Tables.{FileChunk, Db, empty}
use hugrs.Metadata.Consistency.History.{Call, adds, ensures_and_links, deletes_file, calls}

abbrev pub now : String
now = "2025-01-01 00:00:00"

abbrev pub link : FileChunk
link = record { file_id = 1; sha256 = "aa11"; chunk_index = 0; chunk_size = 3 }

abbrev pub other_link : FileChunk
other_link = record { file_id = 1; sha256 = "bb22"; chunk_index = 0; chunk_size = 3 }

abbrev pub sample_calls : List (String × Call)
sample_calls =
    (now, adds "org/repo/f" "org/repo" 3 "hf")
    ∷ (now, ensures_and_links "local" "aa/11/aa11" 3 3 link)
    ∷ []

abbrev pub sample_db : Db
sample_db = calls sample_calls empty

abbrev pub deleting_calls : List (String × Call)
deleting_calls =
    (now, adds "org/repo/f" "org/repo" 3 "hf")
    ∷ (now, ensures_and_links "local" "aa/11/aa11" 3 3 link)
    ∷ (now, deletes_file "org/repo/f" "hf")
    ∷ []

abbrev pub plain_codec : Codec
plain_codec = record { encode_all = λ xs. xs; decode_all = λ xs. ok xs }

-- A disk that holds three bytes under every name.
abbrev pub disk : Disk
disk p = some (1 ∷ 2 ∷ 3 ∷ [])

abbrev pub backend : StorageBackend
backend = local_backend plain_codec Compression.none
