-- ===== src/Metadata/Catalog/Linking.antt =====
-- Links of chunks, seen through the catalogue.
use hugrs.Prelude.{
  ℕ, ◌≡◌, refl, ap, ◌∙◌, fun_ext, String, Bool, true, false, ◌&&◌, Option, none, some, List, [],
  ◌∷◌, ◌++◌, map, ◌==◌, ==_iff, if◌then◌else◌, any_of, find, Bool-cases, inl, inr, arith, str_eq,
  eq_iff, eq_refl, find-some,
}
use hugrs.Metadata.Tables.{File, Chunk, FileChunk, Db, is_at, is_named, has_file, has_chunk}
use hugrs.Metadata.Chunks.{ensure_chunk, new_chunk}
use hugrs.Metadata.Refs.{has_chunk-map}
use hugrs.Metadata.Links.{
  link_file_chunk, is_chunk_linked, unlink_old, replace_link, relink, relink_current,
  ensure_chunk_and_link, drop_ref,
}
use hugrs.Metadata.Consistency.Linking.{drop_ref-sha256}
use hugrs.Metadata.Consistency.History.{settle}
use hugrs.Metadata.Catalog.{Entry, change_if, put_part, put_missing}
use hugrs.Metadata.Catalog.Parts.{parts_of, sha_of, with_part, parts-append, parts-replace}
use hugrs.Metadata.Catalog.Finding.{find-none}
use hugrs.Metadata.Catalog.Removing.{entry_in, with_parts, entries_at}

-- A new link changes one part of the entry of its file.
put_part-with :
    (l : FileChunk) (parts : ℕ → ℕ → Option String) (f : File)
    → ◌≡◌ {A = Option Entry}
        (some (with_parts f (with_part l parts f.id)))
        (change_if l.file_id (put_part l.chunk_index l.sha256) (some (with_parts f (parts f.id))))
put_part-with l parts f = elim (Bool-cases (f.id == l.file_id)) [
  | inl this ↦
      ap (λ p. some (with_parts f p))
        (fun_ext
          λ i. ap (λ b. if b && i == l.chunk_index then some l.sha256 else parts f.id i) this)
      ∙ rw this refl
  | inr other ↦
      ap (λ p. some (with_parts f p))
        (fun_ext
          λ i. ap (λ b. if b && i == l.chunk_index then some l.sha256 else parts f.id i) other)
      ∙ rw other refl
]

-- Tables of links that differ by one part show entries that do.
linked-entries :
    (l : FileChunk) (ls ls' : List FileChunk) (o : Option File)
    → ((id i : ℕ) → parts_of ls' id i ≡ with_part l (parts_of ls) id i)
    → entry_in ls' o ≡ change_if l.file_id (put_part l.chunk_index l.sha256) (entry_in ls o)
linked-entries l ls ls' none h = refl
linked-entries l ls ls' (some f) h =
    ap (λ p. some (with_parts f p)) (fun_ext λ i. h f.id i) ∙ put_part-with l (parts_of ls) f

-- A row whose file is not there shows nowhere.
unowned-entries :
    (l : FileChunk) (g : (ℕ → Option String) → ℕ → Option String) (p : File → Bool)
    (ls : List FileChunk) (fs : List File)
    → has_file l.file_id fs ≡ false
    → entry_in ls (find p fs) ≡ change_if l.file_id g (entry_in ls (find p fs))
unowned-entries l g p ls [] h = refl
unowned-entries l g p ls (f ∷ fs) h = elim (Bool-cases (p f)) [
  | inl here ↦ rw (here, absent) refl
  | inr later ↦ rw later (unowned-entries l g p ls fs (ground arith))
]
  where
    absent : (f.id == l.file_id) ≡ false
    absent = ground arith

-- A part that is there already: putting it again, or where none is, changes nothing.
present-entries :
    (l : FileChunk) (sha256 : String) (g : (ℕ → Option String) → ℕ → Option String)
    (ls : List FileChunk) (o : Option File)
    → parts_of ls l.file_id l.chunk_index ≡ some sha256
    → ((p : ℕ → Option String) → p l.chunk_index ≡ some sha256 → (i : ℕ) → p i ≡ g p i)
    → entry_in ls o ≡ change_if l.file_id g (entry_in ls o)
present-entries l sha256 g ls none there same = refl
present-entries l sha256 g ls (some f) there same = elim (Bool-cases (f.id == l.file_id)) [
  | inr other ↦ rw other refl
  | inl this ↦
      ap (λ p. some (with_parts f p))
        (fun_ext λ i.
          same (parts_of ls f.id)
            (ap (λ id. parts_of ls id l.chunk_index) ((==_iff f.id l.file_id).0 this) ∙ there) i)
      ∙ rw this refl
]

put_missing-same :
    (index : ℕ) (sha256 old : String) (p : ℕ → Option String)
    → p index ≡ some old
    → (i : ℕ) → p i ≡ put_missing index sha256 p i
put_missing-same index sha256 old p e i = elim (Bool-cases (i == index)) [
  | inr other ↦ rw other refl
  | inl this ↦ rw (this, ap p ((==_iff i index).0 this) ∙ e) refl
]

put_part-same :
    (index : ℕ) (sha256 : String) (p : ℕ → Option String)
    → p index ≡ some sha256
    → (i : ℕ) → p i ≡ put_part index sha256 p i
put_part-same index sha256 p e i = elim (Bool-cases (i == index)) [
  | inr other ↦ rw other refl
  | inl this ↦ rw (this, ap p ((==_iff i index).0 this) ∙ e) refl
]

-- Where no link is at the place, adding one where none is adds it.
put_missing-put :
    (l : FileChunk) (ls : List FileChunk) (o : Option File)
    → any_of (is_at l.file_id l.chunk_index) ls ≡ false
    → change_if l.file_id (put_part l.chunk_index l.sha256) (entry_in ls o)
      ≡ change_if l.file_id (put_missing l.chunk_index l.sha256) (entry_in ls o)
put_missing-put l ls none free = refl
put_missing-put l ls (some f) free = elim (Bool-cases (f.id == l.file_id)) [
  | inr other ↦ rw other refl
  | inl this ↦ rw this (ap (λ p. some (with_parts f p)) (fun_ext λ i. at this i))
]
  where
    vacant : (f.id == l.file_id) ≡ true → parts_of ls f.id l.chunk_index ≡ none
    vacant this =
        ap (λ id. parts_of ls id l.chunk_index) ((==_iff f.id l.file_id).0 this)
        ∙ ap sha_of (find-none (is_at l.file_id l.chunk_index) ls free)

    at :
        (f.id == l.file_id) ≡ true
        → (i : ℕ)
        → put_part l.chunk_index l.sha256 (parts_of ls f.id) i
          ≡ put_missing l.chunk_index l.sha256 (parts_of ls f.id) i
    at this i = elim (Bool-cases (i == l.chunk_index)) [
      | inr other ↦ rw other refl
      | inl here ↦
          rw (here, ap (parts_of ls f.id) ((==_iff i l.chunk_index).0 here) ∙ vacant this) refl
    ]

-- `link_file_chunk` adds a part where there is none and the chunk is known.
pub link_file_chunk-entries :
    (l : FileChunk) (db : Db) (n s : String)
    → entries_at (settle (λ r. r) db (link_file_chunk l db)) n s ≡ (
        if has_chunk l.sha256 db.chunks
        then change_if l.file_id (put_missing l.chunk_index l.sha256) (entries_at db n s)
        else entries_at db n s)
unfolding link_file_chunk
link_file_chunk-entries l db n s =
    elim (Bool-cases (any_of (is_at l.file_id l.chunk_index) db.file_chunks)) [
      | inl there ↦ rw there (unless (has_chunk l.sha256 db.chunks) (present there))
      | inr free ↦ rw free (elim (Bool-cases (has_chunk l.sha256 db.chunks)) [
        | inr unknown ↦ elim (Bool-cases (has_file l.file_id db.files)) [
          | inl owned ↦ rw (owned, unknown) refl
          | inr absent ↦ rw (absent, unknown) refl
        ]
        | inl known ↦ elim (Bool-cases (has_file l.file_id db.files)) [
          | inr absent ↦
              rw (absent, known) (unowned-entries l _ (is_named n s) db.file_chunks db.files absent)
          | inl owned ↦
              rw (owned, known)
                (linked-entries l db.file_chunks (db.file_chunks ++ l ∷ []) _
                    (λ id i. parts-append l db.file_chunks id i free)
                  ∙ put_missing-put l db.file_chunks _ free)
        ]
      ])
    ]
  where
    unless : {A : Type 0} {x y : A} (b : Bool) → x ≡ y → x ≡ (if b then y else x)
    unless true e = e
    unless false e = refl

    present :
        any_of (is_at l.file_id l.chunk_index) db.file_chunks ≡ true
        → entries_at db n s
          ≡ change_if l.file_id (put_missing l.chunk_index l.sha256) (entries_at db n s)
    present there =
        let (x, found) = find-some (is_at l.file_id l.chunk_index) db.file_chunks there in
        present-entries l x.sha256 _ db.file_chunks _ (ap sha_of found)
          (put_missing-same l.chunk_index l.sha256 x.sha256)

ensured-has_chunk :
    (now sha256 backend path : String) (size compressed : ℕ) (db : Db)
    → has_chunk sha256 (ensure_chunk now sha256 backend path size compressed db).chunks ≡ true
unfolding ensure_chunk new_chunk
ensured-has_chunk now sha256 backend path size compressed db =
    elim (Bool-cases (has_chunk sha256 db.chunks)) [
      | inl there ↦ rw there there
      | inr missing ↦ rw missing (added db.chunks)
    ]
  where
    c : Chunk
    c = new_chunk now sha256 backend path size compressed

    added : (cs : List Chunk) → has_chunk sha256 (cs ++ c ∷ []) ≡ true
    added [] = ground (arith, eq_refl sha256)
    added (x ∷ xs) = ground (arith, added xs)

-- INSERT OR REPLACE over a table of chunks in which the link's chunk is.
replace_link-entries :
    (l : FileChunk) (db : Db) (cs : List Chunk) (n s : String)
    → has_chunk l.sha256 cs ≡ true
    → entries_at (settle (λ r. r) db (replace_link l (record db { chunks = cs }))) n s
      ≡ change_if l.file_id (put_part l.chunk_index l.sha256) (entries_at db n s)
unfolding replace_link
replace_link-entries l db cs n s known = elim (Bool-cases (has_file l.file_id db.files)) [
  | inl owned ↦
      rw (owned, known)
        (linked-entries l db.file_chunks _ _ (λ id i. parts-replace l db.file_chunks id i))
  | inr absent ↦ rw absent (unowned-entries l _ (is_named n s) db.file_chunks db.files absent)
]

relink-entries :
    (l : FileChunk) (db : Db) (cs : List Chunk) (old : Option String) (n s : String)
    → has_chunk l.sha256 cs ≡ true
    → parts_of db.file_chunks l.file_id l.chunk_index ≡ old
    → entries_at (settle (λ r. r) db (relink old l (record db { chunks = cs }))) n s
      ≡ change_if l.file_id (put_part l.chunk_index l.sha256) (entries_at db n s)
unfolding relink unlink_old
relink-entries l db cs none n s known e = replace_link-entries l db cs n s known
relink-entries l db cs (some old) n s known e = elim (Bool-cases (str_eq old l.sha256)) [
  | inl same ↦ rw same (
      present-entries l l.sha256 _ db.file_chunks _ (e ∙ ap some ((eq_iff old l.sha256).0 same))
        (put_part-same l.chunk_index l.sha256))
  | inr other ↦ rw other (
      replace_link-entries l db (map (drop_ref old) cs) n s
        (has_chunk-map (drop_ref old) l.sha256 cs (drop_ref-sha256 old) ∙ known))
]

-- `ensure_chunk_and_link` puts the part, whether or not one was there.
pub ensure_chunk_and_link-entries :
    (now backend path : String) (size compressed : ℕ) (l : FileChunk) (db : Db) (n s : String)
    → entries_at
        (settle (λ r. r) db (ensure_chunk_and_link now backend path size compressed l db))
        n
        s
      ≡ change_if l.file_id (put_part l.chunk_index l.sha256) (entries_at db n s)
unfolding ensure_chunk_and_link relink_current is_chunk_linked ensure_chunk
ensure_chunk_and_link-entries now backend path size compressed l db n s =
    relink-entries l db (ensure_chunk now l.sha256 backend path size compressed db).chunks _ n s
      (ensured-has_chunk now l.sha256 backend path size compressed db) refl
