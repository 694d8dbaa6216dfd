-- ===== src/Metadata/Catalog/Adding.antt =====
-- Insertions into and updates of the table of files, seen through the catalogue.
use hugrs.Prelude.{
  ℕ, suc, ◌≤◌, ◌≡◌, refl, ap, ◌∙◌, fun_ext, String, Bool, true, false, ◌&&◌, Option, none, some,
  List, [], ◌∷◌, map, ◌==◌, ==_iff, if◌then◌else◌, any_of, find, find-some, subst₂, Bool-cases, inl,
  inr, arith, str_eq, eq_iff, All, All-mono, All-append, All-map,
}
use hugrs.Metadata.Tables.{File, FileChunk, Db, is_at, is_named, has_file}
use hugrs.Metadata.Files.{Headers, add_file, new_file, set_file_headers, with_headers, touch_repo}
use hugrs.Metadata.Refs.{Owned}
use hugrs.Metadata.Consistency.{IsConsistent}
use hugrs.Metadata.Consistency.History.{settle}
use hugrs.Metadata.Catalog.{Entry, or_new}
use hugrs.Metadata.Catalog.Indexed.{IsIndexed, Distinct-append, Distinct-map, KeepsKeys}
use hugrs.Metadata.Catalog.Finding.{find-map, map_some, find-append, or_last, find-none}
use hugrs.Metadata.Catalog.Parts.{parts_of, sha_of}
use hugrs.Metadata.Catalog.Removing.{entry_in, with_parts, entries_at}

-- A file above the counter has no link.
no_parts :
    (ls : List FileChunk) (fs : List File) (last i : ℕ)
    → All (λ (f : File). f.id ≤ last) fs
    → Owned ls fs
    → parts_of ls (suc last) i ≡ none
no_parts ls fs last i bounded owned = ap sha_of (unlinked ls owned)
  where
    absent : (gs : List File) → All (λ (f : File). f.id ≤ last) gs → has_file (suc last) gs ≡ false
    absent [] a = refl
    absent (g ∷ gs) a = ground (arith, a.0, absent gs a.1)

    unlinked : (xs : List FileChunk) → Owned xs fs → find (is_at (suc last) i) xs ≡ none
    unlinked [] o = refl
    unlinked (x ∷ xs) o = elim (Bool-cases (x.file_id == suc last)) [
      | inl above ↦ absurd (
          ground (
            arith,
            o.0,
            absent fs bounded,
            ap (λ k. has_file k fs) ((==_iff x.file_id (suc last)).0 above),
          ))
      | inr other ↦ rw other (unlinked xs o.1)
    ]

-- A name that is taken: the old entry stays.
taken-entries :
    (name source n s : String) (e : Entry) (ls : List FileChunk) (fs : List File)
    → any_of (is_named name source) fs ≡ true
    → entry_in ls (find (is_named n s) fs) ≡ (
        if str_eq name n && str_eq source s
        then or_new e (entry_in ls (find (is_named n s) fs))
        else entry_in ls (find (is_named n s) fs))
taken-entries name source n s e ls fs taken = elim (Bool-cases (str_eq name n && str_eq source s)) [
  | inr other ↦ rw other refl
  | inl same ↦ let (f, found) = find-some (is_named n s) fs (named same) in rw (same, found) refl
]
  where
    named : (str_eq name n && str_eq source s) ≡ true → any_of (is_named n s) fs ≡ true
    named same =
        subst₂ (λ x y. any_of (is_named x y) fs ≡ true) ((eq_iff name n).0 (ground arith))
          ((eq_iff source s).0 (ground arith)) taken

-- A new row is found under its name alone.
free-entries :
    (n s : String) (x : File) (ls : List FileChunk) (o : Option File)
    → entry_in ls (or_last (is_named n s) x o) ≡ (
        if is_named n s x
        then or_new (with_parts x (parts_of ls x.id)) (entry_in ls o)
        else entry_in ls o)
free-entries n s x ls none = elim (Bool-cases (is_named n s x)) [
  | inl this ↦ rw this refl
  | inr other ↦ rw other refl
]
free-entries n s x ls (some f) = ground arith

-- What an insertion adds: an entry without parts, where there is none.
pub add_file-entries :
    (now name repo : String) (size : ℕ) (source : String) (db : Db) (n s : String)
    → IsConsistent db
    → IsIndexed db
    → entries_at (settle (λ r. r.1) db (add_file now name repo size source db)) n s ≡ (
        if str_eq name n && str_eq source s
        then or_new
            (record { id = suc db.last_file_id; repo = repo; total_size = size; parts = λ i. none })
            (entries_at db n s)
        else entries_at db n s)
unfolding add_file new_file
add_file-entries now name repo size source db n s v w =
    elim (Bool-cases (any_of (is_named name source) db.files)) [
      | inl taken ↦ rw taken (taken-entries name source n s _ db.file_chunks db.files taken)
      | inr free ↦ rw free (
          ap (entry_in db.file_chunks) (find-append (is_named n s) db.files x)
          ∙ free-entries n s x db.file_chunks (find (is_named n s) db.files)
          ∙ ap
              (λ p.
                if str_eq name n && str_eq source s
                then or_new (with_parts x p) (entries_at db n s)
                else entries_at db n s)
              (fun_ext λ i. no_parts db.file_chunks db.files db.last_file_id i w.bounded v.owned))
    ]
  where
    x : File
    x = new_file (suc db.last_file_id) now name repo size source

-- The counter moves where a row is added.
pub add_file-last_id :
    (now name repo : String) (size : ℕ) (source : String) (db : Db)
    → (settle (λ r. r.1) db (add_file now name repo size source db)).last_file_id
      ≡ elim (entries_at db name source) [ none ↦ suc db.last_file_id | some old ↦ db.last_file_id ]
unfolding add_file new_file
add_file-last_id now name repo size source db =
    elim (Bool-cases (any_of (is_named name source) db.files)) [
      | inl taken ↦
          let (f, found) = find-some (is_named name source) db.files taken in rw (taken, found) refl
      | inr free ↦ rw (free, find-none (is_named name source) db.files free) refl
    ]

pub add_file-IsIndexed :
    (now name repo : String) (size : ℕ) (source : String) (db : Db)
    → IsIndexed db
    → IsIndexed (settle (λ r. r.1) db (add_file now name repo size source db))
unfolding add_file new_file
add_file-IsIndexed now name repo size source db w =
    elim (Bool-cases (any_of (is_named name source) db.files)) [
      | inl taken ↦ rw taken w
      | inr free ↦ rw free (record {
        distinct =
            Distinct-append db.files x w.distinct free
              (All-mono (λ f le. ground arith) db.files w.bounded);
        bounded =
            All-append _ db.files (x ∷ []) (All-mono (λ f le. omega (arith, le)) db.files w.bounded)
              (omega arith, tt);
      })
    ]
  where
    x : File
    x = new_file (suc db.last_file_id) now name repo size source

-- An update that keeps what an entry shows.
record Shows (g : File → File) : Type 0 where
  keys : KeepsKeys g
  entry : (f : File) (ls : List FileChunk) → entry_in ls (some (g f)) ≡ entry_in ls (some f)

update-entries :
    (g : File → File) (ls : List FileChunk) (fs : List File) (n s : String)
    → Shows g
    → entry_in ls (find (is_named n s) (map g fs)) ≡ entry_in ls (find (is_named n s) fs)
update-entries g ls fs n s k =
    ap (entry_in ls) (find-map (is_named n s) g fs named) ∙ shown (find (is_named n s) fs)
  where
    named : (f : File) → is_named n s (g f) ≡ is_named n s f
    named f =
        ap (λ x. str_eq x n && str_eq (g f).source s) (k.keys.name f)
        ∙ ap (λ x. str_eq f.name n && str_eq x s) (k.keys.source f)

    shown : (o : Option File) → entry_in ls (map_some g o) ≡ entry_in ls o
    shown none = refl
    shown (some f) = k.entry f ls

update-IsIndexed :
    (g : File → File) (db : Db)
    → Shows g
    → IsIndexed db
    → IsIndexed (record db { files = map g db.files })
update-IsIndexed g db k w = record {
  distinct = Distinct-map g db.files k.keys w.distinct;
  bounded = All-map _ g (λ f le. omega (arith, le, k.keys.id f)) db.files w.bounded;
}

either : {A : Type 0} (P : A → Type 0) (b : Bool) (x y : A) → P x → P y → P (if b then x else y)
either P true x y px py = px
either P false x y px py = py

-- A row that is changed where a test passes.
if-Shows : (p : File → Bool) (g : File → File) → Shows g → Shows (λ f. if p f then g f else f)
if-Shows p g k = record {
  keys = record {
    id = λ f. either (λ x. x.id ≡ f.id) (p f) (g f) f (k.keys.id f) refl;
    name = λ f. either (λ x. x.name ≡ f.name) (p f) (g f) f (k.keys.name f) refl;
    source = λ f. either (λ x. x.source ≡ f.source) (p f) (g f) f (k.keys.source f) refl;
  };
  entry = λ f ls.
      either (λ x. entry_in ls (some x) ≡ entry_in ls (some f)) (p f) (g f) f (k.entry f ls) refl;
}

headers-Shows :
    (name source : String) (h : Headers)
    → Shows (λ f. if is_named name source f then with_headers h f else f)
unfolding with_headers
headers-Shows name source h = if-Shows (is_named name source) (with_headers h) (record {
  keys = record { id = λ f. refl; name = λ f. refl; source = λ f. refl };
  entry = λ f ls. refl;
})

touched-Shows :
    (now repo : String)
    → Shows (λ f. if str_eq f.repo repo then record f { last_accessed = now } else f)
touched-Shows now repo =
    if-Shows (λ f. str_eq f.repo repo) (λ f. record f { last_accessed = now })
      (record {
        keys = record { id = λ f. refl; name = λ f. refl; source = λ f. refl };
        entry = λ f ls. refl;
      })

pub set_file_headers-entries :
    (name source : String) (h : Headers) (db : Db) (n s : String)
    → entries_at (set_file_headers name source h db) n s ≡ entries_at db n s
unfolding set_file_headers with_headers
set_file_headers-entries name source h db n s =
    update-entries _ db.file_chunks db.files n s (headers-Shows name source h)

pub set_file_headers-IsIndexed :
    (name source : String) (h : Headers) (db : Db)
    → IsIndexed db
    → IsIndexed (set_file_headers name source h db)
unfolding set_file_headers with_headers
set_file_headers-IsIndexed name source h db w =
    update-IsIndexed _ db (headers-Shows name source h) w

pub touch_repo-entries :
    (now repo : String) (db : Db) (n s : String)
    → entries_at (touch_repo now repo db) n s ≡ entries_at db n s
unfolding touch_repo
touch_repo-entries now repo db n s =
    update-entries _ db.file_chunks db.files n s (touched-Shows now repo)

pub touch_repo-IsIndexed :
    (now repo : String) (db : Db) → IsIndexed db → IsIndexed (touch_repo now repo db)
unfolding touch_repo
touch_repo-IsIndexed now repo db w = update-IsIndexed _ db (touched-Shows now repo) w

pub set_file_headers-last_id :
    (name source : String) (h : Headers) (db : Db)
    → (set_file_headers name source h db).last_file_id ≡ db.last_file_id
unfolding set_file_headers
set_file_headers-last_id name source h db = refl

pub touch_repo-last_id :
    (now repo : String) (db : Db) → (touch_repo now repo db).last_file_id ≡ db.last_file_id
unfolding touch_repo
touch_repo-last_id now repo db = refl
