-- ===== src/Metadata/Tables.antt =====
-- The rows of src/metadata.rs and the database that holds them. Sizes are i64 columns that hold
-- byte counts, so they are natural numbers; `ref_count` is signed, since statements subtract from
-- it with no lower bound. Times are the texts that `datetime('now')` writes.
use hugrs.Prelude.{
  ℕ, suc, String, Bool, ◌&&◌, Option, List, [], ◌∷◌, ℤ, str_eq, ◌==◌, if◌then◌else◌, any_of,
}

pub record File : Type 0 where
  pub id : ℕ
  pub name : String
  pub repo : String
  pub total_size : ℕ
  pub created_at : String
  pub last_accessed : String
  pub source : String
  pub etag : Option String
  pub x_repo_commit : Option String
  pub x_linked_size : Option ℤ
  pub x_linked_etag : Option String
  pub content_type : Option String

pub record Chunk : Type 0 where
  pub sha256 : String
  pub backend : String
  pub path : String
  pub size : ℕ
  pub compressed_size : Option ℕ
  pub ref_count : ℤ
  pub orphaned_at : Option String

pub record FileChunk : Type 0 where
  pub file_id : ℕ
  pub sha256 : String
  pub chunk_index : ℕ
  pub chunk_size : ℕ

-- `last_file_id` is the counter of AUTOINCREMENT: the largest id ever given to a file.
pub record Db : Type 0 where
  pub files : List File
  pub chunks : List Chunk
  pub file_chunks : List FileChunk
  pub last_file_id : ℕ

-- The constraints that a statement can violate.
pub data SqlError : Type 0 where
  unique_failed foreign_key_failed : SqlError

abbrev pub empty : Db
empty = record { files = []; chunks = []; file_chunks = []; last_file_id = 0 }

-- WHERE name = ?1 AND source = ?2
abbrev pub is_named : String → String → File → Bool
is_named name source f = str_eq f.name name && str_eq f.source source

-- WHERE file_id = ?1 AND chunk_index = ?2, the primary key of file_chunks
abbrev pub is_at : ℕ → ℕ → FileChunk → Bool
is_at file_id chunk_index l = l.file_id == file_id && l.chunk_index == chunk_index

abbrev pub has_chunk : String → List Chunk → Bool
has_chunk sha256 = any_of (λ c. str_eq c.sha256 sha256)

abbrev pub has_file : ℕ → List File → Bool
has_file id = any_of (λ f. f.id == id)

-- SELECT COUNT(*) FROM file_chunks WHERE sha256 = ?1
unfoldable pub refs : String → List FileChunk → ℕ
refs sha256 [] = 0
refs sha256 (l ∷ ls) =
    let rest = refs sha256 ls in if str_eq l.sha256 sha256 then suc rest else rest
