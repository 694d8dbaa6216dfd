-- ===== src/Metadata/Shrinking.antt =====
-- How many rows the deletions of src/metadata.rs leave.
use hugrs.Prelude.{
  ℕ, suc, ◌≤◌, ◌<◌, ◌+◌, ◌≡◌, refl, ap, ◌∙◌, String, Bool, true, not, List, [], ◌∷◌, map, str_eq,
  eq_iff, eq_refl, ◌==◌, any_of, select, length, length-map, length-select-le, All, All-mono,
  All-sort_by, All-take, take, str_leb, All-map, length-take, length-sort_by, sort_by, arith,
  Bool-cases, inl, inr,
}
use hugrs.Metadata.Tables.{File, Chunk, Db}
use hugrs.Metadata.Files.{oldest_access, group_by_repo, list_repos_by_access}
use hugrs.Metadata.Chunks.{
  is_in, deletable, delete_where, delete_listed, delete_chunks_batch, delete_chunks_result,
  is_referenced,
}
use hugrs.Metadata.Consistency.{OnOk}
use hugrs.Metadata.Deletion.{delete_file_by_id_tx, delete_ids, delete_files_by_repo, repo_file_ids}

-- Deleting what passes a test deletes something where something passes.
pub length-select-lt {ℓ} :
    {A : Type ℓ} (p : A → Bool) (xs : List A)
    → any_of p xs ≡ true
    → length (select (λ x. not (p x)) xs) < length xs
length-select-lt p [] h = absurd (ground arith)
length-select-lt p (x ∷ xs) h =
    ground (arith, length-select-lt p xs, length-select-le (λ x. not (p x)) xs)

first_deletable :
    (q p : Chunk → Bool) (xs : List Chunk) (d : String) (ds : List String)
    → ((c : Chunk) → q c ≡ true → c.sha256 ≡ d → p c ≡ true)
    → map (λ (c : Chunk). c.sha256) (select q xs) ≡ d ∷ ds
    → any_of p xs ≡ true
first_deletable q p [] d ds h e = absurd (ground arith)
first_deletable q p (x ∷ xs) d ds h e = ground (arith, h x, first_deletable q p xs d ds h)

-- A batch that deletes something leaves fewer chunks.
abbrev pub Shrinks : Db → List String × Db → Type 0
Shrinks db r =
    (length r.1.chunks ≤ length db.chunks) × (0 < length r.0 → length r.1.chunks < length db.chunks)

delete_listed-Shrinks :
    (s : String) (ss ds : List String) (db : Db)
    → deletable (s ∷ ss) db ≡ ds
    → OnOk (Shrinks db) (delete_listed ds db)
unfolding delete_listed delete_where delete_chunks_result
delete_listed-Shrinks s ss [] db e = (omega arith, λ h. absurd (omega arith))
delete_listed-Shrinks s ss (d ∷ ds) db e = elim (Bool-cases (is_referenced (is_in (d ∷ ds)) db)) [
  | inl used ↦ rw used tt
  | inr free ↦
      rw free (length-select-le _ db.chunks, λ h. length-select-lt (is_in (d ∷ ds)) db.chunks there)
]
  where
    in_list : (c : Chunk) → is_in (s ∷ ss) c ≡ true → c.sha256 ≡ d → is_in (d ∷ ds) c ≡ true
    in_list c q named = ground (arith, eq_iff d c.sha256)

    there : any_of (is_in (d ∷ ds)) db.chunks ≡ true
    there =
        first_deletable (is_in (s ∷ ss)) (is_in (d ∷ ds)) db.chunks d ds
          (λ c q named. in_list c q named) e

pub delete_chunks_batch-Shrinks :
    (ss : List String) (db : Db) → OnOk (Shrinks db) (delete_chunks_batch ss db)
unfolding delete_chunks_batch
delete_chunks_batch-Shrinks [] db = (omega arith, λ h. absurd (omega arith))
delete_chunks_batch-Shrinks (s ∷ ss) db = delete_listed-Shrinks s ss (deletable (s ∷ ss) db) db refl

-- Files that a list of ids names go; the chunks stay.
delete_ids-length :
    (now : String) (ids : List ℕ) (db : Db)
    → (length (delete_ids now ids db).files ≤ length db.files)
      × (length (delete_ids now ids db).chunks ≡ length db.chunks)
unfolding delete_ids delete_file_by_id_tx
delete_ids-length now [] db = (omega arith, refl)
delete_ids-length now (id ∷ ids) db =
    let after = delete_file_by_id_tx now id db in
    let (files, chunks) = delete_ids-length now ids after in
    (
      omega (arith, files, length-select-le (λ (f : File). not (f.id == id)) db.files),
      chunks ∙ length-map _ db.chunks,
    )

-- The first of the ids is that of a file.
abbrev HasFirst : List ℕ → List File → Type 0
HasFirst [] fs = ⊥
HasFirst (id ∷ ids) fs = any_of (λ (f : File). f.id == id) fs ≡ true

HasFirst-grow : (ids : List ℕ) (f : File) (fs : List File) → HasFirst ids fs → HasFirst ids (f ∷ fs)
HasFirst-grow [] f fs h = h
HasFirst-grow (id ∷ ids) f fs h = ground arith

ids-HasFirst :
    (repo : String) (fs : List File)
    → any_of (λ f. str_eq f.repo repo) fs ≡ true
    → HasFirst (map (λ (f : File). f.id) (select (λ f. str_eq f.repo repo) fs)) fs
ids-HasFirst repo [] h = absurd (ground arith)
ids-HasFirst repo (f ∷ fs) h = elim (Bool-cases (str_eq f.repo repo)) [
  | inl here ↦ rw here (ground arith)
  | inr later ↦ rw later (HasFirst-grow _ f fs (ids-HasFirst repo fs (ground arith)))
]

delete_ids-HasFirst :
    (now : String) (ids : List ℕ) (db : Db)
    → HasFirst ids db.files
    → length (delete_ids now ids db).files < length db.files
unfolding delete_ids delete_file_by_id_tx
delete_ids-HasFirst now [] db h = absurd h
delete_ids-HasFirst now (id ∷ ids) db h = omega (
  arith,
  delete_ids-length now ids (delete_file_by_id_tx now id db),
  length-select-lt (λ (f : File). f.id == id) db.files h,
)

-- Deleting a repo that has a file leaves fewer files, and as many chunks.
pub delete_files_by_repo-length :
    (now repo : String) (db : Db)
    → any_of (λ f. str_eq f.repo repo) db.files ≡ true
    → (length (delete_files_by_repo now repo db).1.files < length db.files)
      × (length (delete_files_by_repo now repo db).1.chunks ≡ length db.chunks)
unfolding delete_files_by_repo
delete_files_by_repo-length now repo db h = (
  delete_ids-HasFirst now (repo_file_ids repo db) db (ids-HasFirst repo db.files h),
  (delete_ids-length now (repo_file_ids repo db) db).1,
)

module _ (P : String → Type 0) where
  abbrev RowHas : String × String → Type 0
  RowHas row = P row.0

  oldest_access-RowHas :
      (repo t : String) (rows : List (String × String))
      → P repo
      → All RowHas rows
      → All RowHas (oldest_access repo t rows)
  unfolding oldest_access
  oldest_access-RowHas repo t [] p a = (p, tt)
  oldest_access-RowHas repo t ((r, u) ∷ rows) p (pr, a) = elim (Bool-cases (str_eq r repo)) [
    | inl same ↦ rw same (pr, a)
    | inr other ↦ rw other (pr, oldest_access-RowHas repo t rows p a)
  ]

  group_by_repo-RowHas :
      (rows : List (String × String)) (fs : List File)
      → All RowHas rows
      → All (λ (f : File). P f.repo) fs
      → All RowHas (group_by_repo rows fs)
  unfolding group_by_repo
  group_by_repo-RowHas rows [] a h = a
  group_by_repo-RowHas rows (f ∷ fs) a h =
      group_by_repo-RowHas (oldest_access f.repo f.last_accessed rows) fs
        (oldest_access-RowHas f.repo f.last_accessed rows h.0 a) h.1

  -- Every repo that is listed is the repo of a file.
  pub list_repos_by_access-All :
      (limit : ℕ) (db : Db)
      → All (λ (f : File). P f.repo) db.files
      → All P (list_repos_by_access limit db)
  unfolding list_repos_by_access
  list_repos_by_access-All limit db h =
      All-map P (λ (row : String × String). row.0) (λ row p. p) _
        (All-take RowHas limit _
          (All-sort_by RowHas (λ a b. str_leb a.1 b.1) _ (group_by_repo-RowHas [] db.files tt h)))

-- Every file's repo has that file.
repo_present :
    (fs : List File) → All (λ (f : File). any_of (λ g. str_eq g.repo f.repo) fs ≡ true) fs
repo_present [] = tt
repo_present (f ∷ fs) =
    (ground (arith, eq_refl f.repo), All-mono (λ g h. ground arith) fs (repo_present fs))

pub listed_repos-present :
    (limit : ℕ) (db : Db)
    → All (λ repo. any_of (λ f. str_eq f.repo repo) db.files ≡ true) (list_repos_by_access limit db)
listed_repos-present limit db =
    list_repos_by_access-All (λ repo. any_of (λ f. str_eq f.repo repo) db.files ≡ true) limit db
      (repo_present db.files)

oldest_access-pos :
    (repo t : String) (rows : List (String × String)) → 0 < length (oldest_access repo t rows)
unfolding oldest_access
oldest_access-pos repo t [] = omega arith
oldest_access-pos repo t ((r, u) ∷ rows) = ground arith

group_by_repo-pos :
    (rows : List (String × String)) (fs : List File)
    → 0 < length rows + length fs
    → 0 < length (group_by_repo rows fs)
unfolding group_by_repo
group_by_repo-pos rows [] h = omega (arith, h)
group_by_repo-pos rows (f ∷ fs) h =
    group_by_repo-pos (oldest_access f.repo f.last_accessed rows) fs
      (omega (arith, oldest_access-pos f.repo f.last_accessed rows))

-- No repo is listed only where there is no file.
pub listed_repos-none :
    (limit : ℕ) (db : Db) → list_repos_by_access (suc limit) db ≡ [] → db.files ≡ []
unfolding list_repos_by_access
listed_repos-none limit db h = no_rows db.files (
    omega (
      arith,
      ap length h,
      length-map (λ (row : String × String). row.0) (take (suc limit) sorted),
      length-take (suc limit) sorted,
      length-sort_by (λ (a b : String × String). str_leb a.1 b.1) (group_by_repo [] db.files),
    ))
  where
    sorted : List (String × String)
    sorted = sort_by (λ a b. str_leb a.1 b.1) (group_by_repo [] db.files)

    no_rows : (fs : List File) → length (group_by_repo [] fs) ≡ 0 → fs ≡ []
    no_rows [] e = refl
    no_rows (f ∷ fs) e = absurd (omega (arith, e, group_by_repo-pos [] (f ∷ fs)))
