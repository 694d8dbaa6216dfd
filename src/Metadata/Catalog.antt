-- ===== src/Metadata/Catalog.antt =====
-- What the metadata store of src/metadata.rs promises its users, without tables: a map from a name and
-- a source to a file, whose parts are a map from an index to the key of a chunk. The order of rows,
-- the chunks and their counts, the headers and the times are forgotten.
pub mod Indexed
pub mod Finding
pub mod Parts
pub mod Removing
pub mod Naming
pub mod Adding
pub mod Linking
pub mod Quiet
pub mod Refinement
use hugrs.Prelude.{
  ℕ, suc, String, Bool, true, false, ◌&&◌, Option, none, some, List, str_eq, ◌==◌, if◌then◌else◌,
}
use hugrs.Metadata.Tables.{File, FileChunk, Db, has_chunk}
use hugrs.Metadata.Files.{get_file_by_name}
use hugrs.Metadata.Links.{is_chunk_linked}
use hugrs.Metadata.Consistency.History.{
  Call, adds, sets_headers, touches, ensures, links, ensures_and_links, marks, clears, deletes_file,
  deletes_repo, deletes_chunk, deletes_batch, reconciles,
}

pub record Entry : Type 0 where
  pub id : ℕ
  pub repo : String
  pub total_size : ℕ
  pub parts : ℕ → Option String

-- `last_id` is the largest id ever given: an id is not used twice.
pub record Catalog : Type 0 where
  pub last_id : ℕ
  pub entries : String → String → Option Entry

-- The view of a database: what `get_file_by_name` and `is_chunk_linked` answer.
abbrev pub entry_of : Db → Option File → Option Entry
entry_of db none = none
entry_of db (some f) = some (record {
  id = f.id;
  repo = f.repo;
  total_size = f.total_size;
  parts = λ i. is_chunk_linked f.id i db;
})

unfoldable pub view : Db → Catalog
unfolding get_file_by_name is_chunk_linked
view db = record {
  last_id = db.last_file_id;
  entries = λ name source. entry_of db (get_file_by_name name source db);
}

-- A new entry where there is none.
abbrev pub or_new : Entry → Option Entry → Option Entry
or_new e none = some e
or_new e (some old) = some old

abbrev pub add_entry : String → String → Entry → Catalog → Catalog
add_entry name source e c = record {
  last_id = elim (c.entries name source) [ none ↦ suc c.last_id | some old ↦ c.last_id ];
  entries =
      λ n s. if str_eq name n && str_eq source s then or_new e (c.entries n s) else c.entries n s;
}

-- A change to the entry that has an id, and to no other.
abbrev pub change_if : ℕ → ((ℕ → Option String) → ℕ → Option String) → Option Entry → Option Entry
change_if id g none = none
change_if id g (some e) = some (if e.id == id then record e { parts = g e.parts } else e)

abbrev pub change_parts : ℕ → ((ℕ → Option String) → ℕ → Option String) → Catalog → Catalog
change_parts id g c = record c { entries = λ n s. change_if id g (c.entries n s) }

abbrev pub put_part : ℕ → String → (ℕ → Option String) → ℕ → Option String
put_part index sha256 parts i = if i == index then some sha256 else parts i

abbrev pub or_part : String → Option String → Option String
or_part sha256 none = some sha256
or_part sha256 (some old) = some old

-- A part where there is none.
abbrev pub put_missing : ℕ → String → (ℕ → Option String) → ℕ → Option String
put_missing index sha256 parts i = if i == index then or_part sha256 (parts i) else parts i

abbrev pub keep_unless_repo : String → Option Entry → Option Entry
keep_unless_repo repo none = none
keep_unless_repo repo (some e) = if str_eq e.repo repo then none else some e

-- What each call does to the catalogue. A link that names a chunk that is not there is refused, so
-- whether it is there is an argument.
unfoldable pub promised : Bool → Call → Catalog → Catalog
promised known (adds name repo size source) c =
    add_entry name source
      (record { id = suc c.last_id; repo = repo; total_size = size; parts = λ i. none }) c
promised known (links l) c =
    if known then change_parts l.file_id (put_missing l.chunk_index l.sha256) c else c
promised known (ensures_and_links backend path size compressed l) c =
    change_parts l.file_id (put_part l.chunk_index l.sha256) c
promised known (deletes_file name source) c = record c {
  entries = λ n s. if str_eq name n && str_eq source s then none else c.entries n s;
}
promised known (deletes_repo repo) c = record c {
  entries = λ n s. keep_unless_repo repo (c.entries n s);
}
promised known (sets_headers name source h) c = c
promised known (touches repo) c = c
promised known (ensures sha256 backend path size compressed) c = c
promised known (marks sha256) c = c
promised known (clears sha256) c = c
promised known (deletes_chunk sha256) c = c
promised known (deletes_batch sha256s) c = c
promised known (reconciles dry) c = c

-- Is the chunk of a link there?
abbrev pub chunk_known : Call → Db → Bool
chunk_known (links l) db = has_chunk l.sha256 db.chunks
chunk_known _ db = true
