-- ===== src/Metadata/Stats.antt =====
-- `get_stats` of src/metadata.rs, less the floating-point `saved_percent`.
use hugrs.Prelude.{
  ℕ, ◌+◌, List, [], ◌∷◌, ℤ, sub_ℕ, is_pos, str_eq, any_of, if◌then◌else◌, select, length,
}
use hugrs.Metadata.Tables.{File, Db}
use hugrs.Metadata.Chunks.{total_stored}

pub record Stats : Type 0 where
  pub repo_count : ℕ
  pub file_count : ℕ
  pub chunk_count : ℕ
  pub original_bytes : ℕ
  pub stored_bytes : ℕ
  pub bytes_saved : ℤ
  pub fetched_bytes : ℕ
  pub served_bytes : ℕ

-- COUNT(DISTINCT repo): a repo is counted at its last row.
distinct_repos : List File → ℕ
distinct_repos [] = 0
distinct_repos (f ∷ fs) =
    let rest = distinct_repos fs in
    if any_of (λ (g : File). str_eq g.repo f.repo) fs then rest else rest + 1

abbrev pub total_file_size : List File → ℕ
total_file_size [] = 0
total_file_size (f ∷ fs) = f.total_size + total_file_size fs

unfoldable pub get_stats : Db → Stats
unfolding distinct_repos
get_stats db = record {
  repo_count = distinct_repos db.files;
  file_count = length db.files;
  chunk_count = length db.chunks;
  original_bytes = total_file_size db.files;
  stored_bytes = total_stored (select (λ c. is_pos c.ref_count) db.chunks);
  bytes_saved =
      sub_ℕ (total_file_size db.files) (total_stored (select (λ c. is_pos c.ref_count) db.chunks));
  fetched_bytes = 0;
  served_bytes = 0;
}
