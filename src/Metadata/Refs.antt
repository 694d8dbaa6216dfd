-- ===== src/Metadata/Refs.antt =====
-- How the number of links to a chunk moves when rows of file_chunks come and go.
use hugrs.Prelude.{
  ℕ, ◌+◌, ◌≡◌, ◌≢◌, refl, inl, inr, String, Bool, true, false, not, ◌||◌, Option, none, some, List,
  [], ◌∷◌, ◌++◌, map, All, str_eq, eq_iff, ◌==◌, if◌then◌else◌, find, any_of, select, Bool-cases,
  ap, All-mono, subst₂, arith,
}
use hugrs.Metadata.Tables.{Chunk, File, FileChunk, refs, is_at, has_chunk, has_file}
use hugrs.Metadata.Deletion.{refs_lost}

-- Every chunk that a row names is there.
abbrev pub Linked : List FileChunk → List Chunk → Type 0
Linked ls cs = All (λ l. has_chunk l.sha256 cs ≡ true) ls

-- Every file that a row names is there.
abbrev pub Owned : List FileChunk → List File → Type 0
Owned ls fs = All (λ l. has_file l.file_id fs ≡ true) ls

-- The primary key of file_chunks: no two rows at one index of one file.
abbrev pub KeysDistinct : List FileChunk → Type 0
KeysDistinct [] = Unit
KeysDistinct (l ∷ ls) = (any_of (is_at l.file_id l.chunk_index) ls ≡ false) × KeysDistinct ls

abbrev pub counts_at : Option FileChunk → String → ℕ
counts_at none s = 0
counts_at (some l) s = if str_eq l.sha256 s then 1 else 0

pub refs-append :
    (s : String) (ls : List FileChunk) (l : FileChunk)
    → refs s (ls ++ l ∷ []) ≡ refs s ls + counts_at (some l) s
unfolding refs
refs-append s [] l = ground arith
refs-append s (x ∷ ls) l = ground (arith, refs-append s ls l)

pub refs-split :
    (s : String) (file_id : ℕ) (ls : List FileChunk)
    → refs s (select (λ l. not (l.file_id == file_id)) ls) + refs_lost file_id s ls ≡ refs s ls
unfolding refs refs_lost
refs-split s file_id [] = refl
refs-split s file_id (l ∷ ls) = ground (arith, refs-split s file_id ls)

pub refs_of_missing :
    (s : String) (ls : List FileChunk) (cs : List Chunk)
    → has_chunk s cs ≡ false
    → Linked ls cs
    → refs s ls ≡ 0
unfolding refs
refs_of_missing s [] cs h a = refl
refs_of_missing s (l ∷ ls) cs h a = elim (Bool-cases (str_eq l.sha256 s)) [
  | inl e ↦
      let same : l.sha256 ≡ s = (eq_iff l.sha256 s).0 e in
      absurd (ground (arith, ap (λ (t : String). has_chunk t cs) same, h, a.0))
  | inr e ↦ rw e (refs_of_missing s ls cs h a.1)
]

refs_without_absent :
    (s : String) (file_id idx : ℕ) (ls : List FileChunk)
    → any_of (is_at file_id idx) ls ≡ false
    → refs s (select (λ x. not (is_at file_id idx x)) ls) ≡ refs s ls
unfolding refs
refs_without_absent s file_id idx [] h = refl
refs_without_absent s file_id idx (l ∷ ls) h = ground (arith, refs_without_absent s file_id idx ls)

find_absent :
    (file_id idx : ℕ) (ls : List FileChunk)
    → any_of (is_at file_id idx) ls ≡ false
    → find (is_at file_id idx) ls ≡ none
find_absent file_id idx [] h = refl
find_absent file_id idx (l ∷ ls) h = ground (arith, find_absent file_id idx ls)

is_at_self :
    (file_id idx : ℕ) (l : FileChunk) (ls : List FileChunk)
    → is_at file_id idx l ≡ true
    → any_of (is_at l.file_id l.chunk_index) ls ≡ false
    → any_of (is_at file_id idx) ls ≡ false
is_at_self file_id idx l ls h d =
    let e : l.file_id ≡ file_id = ground arith in
    let e' : l.chunk_index ≡ idx = ground arith in
    subst₂ (λ f i. any_of (is_at f i) ls ≡ false) e e' d

-- Taking out the row at a key takes out one reference, to the chunk that was linked there.
pub refs_without :
    (s : String) (file_id idx : ℕ) (ls : List FileChunk)
    → KeysDistinct ls
    → refs s (select (λ x. not (is_at file_id idx x)) ls)
        + counts_at (find (is_at file_id idx) ls) s
      ≡ refs s ls
unfolding refs
refs_without s file_id idx [] d = refl
refs_without s file_id idx (l ∷ ls) d = elim (Bool-cases (is_at file_id idx l)) [
  | inl here ↦
      ground (arith, refs_without_absent s file_id idx ls (is_at_self file_id idx l ls here d.0))
  | inr there ↦ ground (arith, refs_without s file_id idx ls d.1)
]

any_of-select :
    (q p : FileChunk → Bool) (ls : List FileChunk)
    → any_of q ls ≡ false
    → any_of q (select p ls) ≡ false
any_of-select q p [] h = refl
any_of-select q p (l ∷ ls) h = ground (arith, any_of-select q p ls)

pub KeysDistinct-select :
    (p : FileChunk → Bool) (ls : List FileChunk) → KeysDistinct ls → KeysDistinct (select p ls)
KeysDistinct-select p [] d = tt
KeysDistinct-select p (l ∷ ls) d =
    ground
      (arith, any_of-select (is_at l.file_id l.chunk_index) p ls d.0, KeysDistinct-select p ls d.1)

any_of-append :
    (q : FileChunk → Bool) (ls : List FileChunk) (l : FileChunk)
    → any_of q (ls ++ l ∷ []) ≡ (any_of q ls || q l)
any_of-append q [] l = ground arith
any_of-append q (x ∷ ls) l = ground (arith, any_of-append q ls l)

pub KeysDistinct-append :
    (ls : List FileChunk) (l : FileChunk)
    → any_of (is_at l.file_id l.chunk_index) ls ≡ false
    → KeysDistinct ls
    → KeysDistinct (ls ++ l ∷ [])
KeysDistinct-append [] l h d = (refl, tt)
KeysDistinct-append (x ∷ ls) l h d =
    ground (arith, any_of-append (is_at x.file_id x.chunk_index) ls l, KeysDistinct-append ls l)

pub any_of-removed :
    (file_id idx : ℕ) (ls : List FileChunk)
    → any_of (is_at file_id idx) (select (λ x. not (is_at file_id idx x)) ls) ≡ false
any_of-removed file_id idx [] = refl
any_of-removed file_id idx (l ∷ ls) = ground (arith, any_of-removed file_id idx ls)

-- A chunk or a file stays when others are added or changed.
pub Linked-mono :
    (ls : List FileChunk) (cs ds : List Chunk)
    → ((s : String) → has_chunk s cs ≡ true → has_chunk s ds ≡ true)
    → Linked ls cs
    → Linked ls ds
Linked-mono ls cs ds h = All-mono (λ l. h l.sha256) ls

pub has_chunk-map :
    (f : Chunk → Chunk) (s : String) (cs : List Chunk)
    → ((c : Chunk) → (f c).sha256 ≡ c.sha256)
    → has_chunk s (map f cs) ≡ has_chunk s cs
has_chunk-map f s [] h = refl
has_chunk-map f s (c ∷ cs) h = ground (arith, h c, has_chunk-map f s cs h)

pub has_chunk-append :
    (s : String) (cs : List Chunk) (c : Chunk)
    → has_chunk s (cs ++ c ∷ []) ≡ (has_chunk s cs || str_eq c.sha256 s)
has_chunk-append s [] c = ground arith
has_chunk-append s (x ∷ cs) c = ground (arith, has_chunk-append s cs c)

pub has_file-append :
    (id : ℕ) (fs : List File) (f : File)
    → has_file id (fs ++ f ∷ []) ≡ (has_file id fs || f.id == id)
has_file-append id [] f = ground arith
has_file-append id (x ∷ fs) f = ground (arith, has_file-append id fs f)

pub has_file-map :
    (g : File → File) (id : ℕ) (fs : List File)
    → ((f : File) → (g f).id ≡ f.id)
    → has_file id (map g fs) ≡ has_file id fs
has_file-map g id [] h = refl
has_file-map g id (f ∷ fs) h = ground (arith, h f, has_file-map g id fs h)

pub has_file-delete :
    (id other : ℕ) (fs : List File)
    → other ≢ id
    → has_file other (select (λ f. not (f.id == id)) fs) ≡ has_file other fs
has_file-delete id other [] h = refl
has_file-delete id other (f ∷ fs) h = ground (arith, has_file-delete id other fs h)

pub has_chunk-grow :
    (s : String) (cs ds : List Chunk) → has_chunk s cs ≡ true → has_chunk s (cs ++ ds) ≡ true
has_chunk-grow s [] ds h = absurd (ground arith)
has_chunk-grow s (c ∷ cs) ds h = ground (arith, has_chunk-grow s cs ds)

pub has_file-grow :
    (id : ℕ) (fs gs : List File) → has_file id fs ≡ true → has_file id (fs ++ gs) ≡ true
has_file-grow id [] gs h = absurd (ground arith)
has_file-grow id (f ∷ fs) gs h = ground (arith, has_file-grow id fs gs)
