-- ===== src/Metadata/Consistency/Linking.antt =====
-- The statements on file_chunks of src/metadata.rs keep counts and links in step.
use hugrs.Prelude.{
  ℕ, ◌+◌, ◌≡◌, refl, String, true, false, not, Option, none, some, List, [], ◌∷◌, ◌++◌, map, pos,
  pos-sub, pos-add, All-map, All-append, All-mono, All-select, str_eq, eq_iff, find, any_of, select,
  Bool-cases, inl, inr, arith,
}
use hugrs.Metadata.Tables.{Chunk, FileChunk, Db, refs, is_at, has_chunk, has_file}
use hugrs.Metadata.Chunks.{ensure_chunk}
use hugrs.Metadata.Links.{
  add_ref, drop_ref, link_file_chunk, ensure_chunk_and_link, replace_link, relink, keys_exist,
}
use hugrs.Metadata.Refs.{
  counts_at, refs-append, refs_without, KeysDistinct-select, KeysDistinct-append, any_of-removed,
  Linked-mono, has_chunk-map,
}
use hugrs.Metadata.Consistency.{RefsExact, IsConsistent, OnOk, ensure_chunk-IsConsistent}

-- A new link raises the count of its chunk and of no other.
add_ref-exact :
    (l : FileChunk) (ls : List FileChunk) (c : Chunk)
    → c.ref_count ≡ pos (refs c.sha256 ls)
    → (add_ref l.sha256 c).ref_count ≡ pos (refs (add_ref l.sha256 c).sha256 (ls ++ l ∷ []))
unfolding add_ref
add_ref-exact l ls c e = elim (Bool-cases (str_eq c.sha256 l.sha256)) [
  | inl same ↦ ground (
    arith,
    refs-append c.sha256 ls l,
    eq_iff c.sha256 l.sha256,
    eq_iff l.sha256 c.sha256,
    pos-add (refs c.sha256 ls) 1,
  )
  | inr other ↦
      ground (arith, refs-append c.sha256 ls l, eq_iff c.sha256 l.sha256, eq_iff l.sha256 c.sha256)
]

add_ref-sha256 : (s : String) (c : Chunk) → (add_ref s c).sha256 ≡ c.sha256
unfolding add_ref
add_ref-sha256 s c = ground arith

-- Links to a chunk and a file that are there, at a key that is free.
add_link-IsConsistent :
    (l : FileChunk) (db : Db)
    → has_file l.file_id db.files ≡ true
    → has_chunk l.sha256 db.chunks ≡ true
    → any_of (is_at l.file_id l.chunk_index) db.file_chunks ≡ false
    → IsConsistent db
    → IsConsistent (record db {
      file_chunks = db.file_chunks ++ l ∷ [];
      chunks = map (add_ref l.sha256) db.chunks;
    })
add_link-IsConsistent l db file chunk free v = record {
  refs_exact = All-map _ (add_ref l.sha256) (add_ref-exact l db.file_chunks) db.chunks v.refs_exact;
  linked =
      All-append _ db.file_chunks _
        (Linked-mono db.file_chunks db.chunks _ (λ s. rw (kept s) (λ o. o)) v.linked)
        (rw (kept l.sha256) chunk, tt);
  owned = All-append _ db.file_chunks _ v.owned (file, tt);
  keys = KeysDistinct-append db.file_chunks l free v.keys;
}
  where
    kept : (s : String) → has_chunk s (map (add_ref l.sha256) db.chunks) ≡ has_chunk s db.chunks
    kept s = has_chunk-map (add_ref l.sha256) s db.chunks (add_ref-sha256 l.sha256)

pub link_file_chunk-IsConsistent :
    (l : FileChunk) (db : Db) → IsConsistent db → OnOk IsConsistent (link_file_chunk l db)
unfolding link_file_chunk
link_file_chunk-IsConsistent l db v =
    elim (Bool-cases (any_of (is_at l.file_id l.chunk_index) db.file_chunks)) [
      | inl taken ↦ rw taken v
      | inr free ↦ elim (Bool-cases (keys_exist l db)) [
        | inl there ↦
            rw (free, there) (add_link-IsConsistent l db (ground arith) (ground arith) free v)
        | inr missing ↦ rw (free, missing) tt
      ]
    ]

-- The counts while the row at a key is out and its chunk has been let go.
drop_ref-exact :
    (old : FileChunk) (ls rest : List FileChunk) (c : Chunk)
    → refs c.sha256 rest + counts_at (some old) c.sha256 ≡ refs c.sha256 ls
    → c.ref_count ≡ pos (refs c.sha256 ls)
    → (drop_ref old.sha256 c).ref_count ≡ pos (refs (drop_ref old.sha256 c).sha256 rest)
unfolding drop_ref
drop_ref-exact old ls rest c split e = elim (Bool-cases (str_eq c.sha256 old.sha256)) [
  | inl same ↦ ground (
    arith,
    eq_iff c.sha256 old.sha256,
    eq_iff old.sha256 c.sha256,
    pos-sub (refs c.sha256 ls) 1 (refs c.sha256 rest),
  )
  | inr other ↦ ground (arith, eq_iff c.sha256 old.sha256, eq_iff old.sha256 c.sha256)
]

pub drop_ref-sha256 : (s : String) (c : Chunk) → (drop_ref s c).sha256 ≡ c.sha256
unfolding drop_ref
drop_ref-sha256 s c = ground arith

-- The row at a key taken out, and the chunk that it named let go.
abbrev cut_chunks : Option FileChunk → List Chunk → List Chunk
cut_chunks none cs = cs
cut_chunks (some old) cs = map (drop_ref old.sha256) cs

abbrev rest_of : FileChunk → Db → List FileChunk
rest_of l db = select (λ x. not (is_at l.file_id l.chunk_index x)) db.file_chunks

cut-exact :
    (o : Option FileChunk) (ls rest : List FileChunk) (cs : List Chunk)
    → ((s : String) → refs s rest + counts_at o s ≡ refs s ls)
    → RefsExact ls cs
    → RefsExact rest (cut_chunks o cs)
cut-exact none ls rest cs split = All-mono (λ c e. ground (arith, split c.sha256)) cs
cut-exact (some old) ls rest cs split =
    All-map _ (drop_ref old.sha256) (λ c. drop_ref-exact old ls rest c (split c.sha256)) cs

has_chunk-cut :
    (o : Option FileChunk) (s : String) (cs : List Chunk)
    → has_chunk s (cut_chunks o cs) ≡ has_chunk s cs
has_chunk-cut none s cs = refl
has_chunk-cut (some old) s cs =
    has_chunk-map (drop_ref old.sha256) s cs (drop_ref-sha256 old.sha256)

cut-IsConsistent :
    (l : FileChunk) (db : Db)
    → IsConsistent db
    → IsConsistent (record db {
      file_chunks = rest_of l db;
      chunks = cut_chunks (find (is_at l.file_id l.chunk_index) db.file_chunks) db.chunks;
    })
cut-IsConsistent l db v = record {
  refs_exact =
      cut-exact (find (is_at l.file_id l.chunk_index) db.file_chunks) db.file_chunks (rest_of l db)
        db.chunks (λ s. refs_without s l.file_id l.chunk_index db.file_chunks v.keys) v.refs_exact;
  linked =
      Linked-mono (rest_of l db) db.chunks _
        (λ s.
          rw (has_chunk-cut (find (is_at l.file_id l.chunk_index) db.file_chunks) s db.chunks)
            (λ o. o))
        (All-select _ _ db.file_chunks v.linked);
  owned = All-select _ _ db.file_chunks v.owned;
  keys = KeysDistinct-select _ db.file_chunks v.keys;
}

-- INSERT OR REPLACE into the cut database.
replace-IsConsistent :
    (l : FileChunk) (o : Option FileChunk) (db : Db)
    → find (is_at l.file_id l.chunk_index) db.file_chunks ≡ o
    → IsConsistent db
    → OnOk IsConsistent (replace_link l (record db { chunks = cut_chunks o db.chunks }))
unfolding replace_link
replace-IsConsistent l o db e v =
    elim (Bool-cases (keys_exist l (record db { chunks = cut_chunks o db.chunks }))) [
      | inl there ↦ rw there (
          add_link-IsConsistent l cut (ground arith) (ground arith)
            (any_of-removed l.file_id l.chunk_index db.file_chunks)
            (rw e at (cut-IsConsistent l db v)))
      | inr missing ↦ rw missing tt
    ]
  where
    cut : Db
    cut = record db { file_chunks = rest_of l db; chunks = cut_chunks o db.chunks }

relink-IsConsistent :
    (l : FileChunk) (o : Option FileChunk) (db : Db)
    → find (is_at l.file_id l.chunk_index) db.file_chunks ≡ o
    → IsConsistent db
    → OnOk IsConsistent (relink (elim o [ none ↦ none | some x ↦ some x.sha256 ]) l db)
unfolding relink
relink-IsConsistent l none db e v = replace-IsConsistent l none db e v
relink-IsConsistent l (some old) db e v = elim (Bool-cases (str_eq old.sha256 l.sha256)) [
  | inl same ↦ rw same v
  | inr other ↦ rw other (replace-IsConsistent l (some old) db e v)
]

-- Linking a stored chunk to a place of a file, also one that linked another chunk, keeps a
-- consistent database consistent when it is not refused.
pub ensure_chunk_and_link-IsConsistent :
    (now backend path : String) (size compressed : ℕ) (l : FileChunk) (db : Db)
    → IsConsistent db
    → OnOk IsConsistent (ensure_chunk_and_link now backend path size compressed l db)
unfolding ensure_chunk_and_link
ensure_chunk_and_link-IsConsistent now backend path size compressed l db v =
    relink-IsConsistent l _ (ensure_chunk now l.sha256 backend path size compressed db) refl
      (ensure_chunk-IsConsistent now l.sha256 backend path size compressed db v)
