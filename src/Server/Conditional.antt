-- ===== src/Server/Conditional.antt =====
-- `etag_matches_any` and `resolve_redirect` of src/server.rs.
pub mod Matching
pub mod Tags
use hugrs.Prelude.{
  ℕ, suc, ◌+◌, Bool, true, false, not, Option, none, some, List, [], ◌∷◌, ◌++◌, map, chars, split,
  trim_both, is_whitespace, is_empty, same_chars, select, any_of, if◌then◌else◌, contains,
  starts_with, find_text, ltb, length, take, drop, ◌==◌,
}
use hugrs.Service.Refresh.{strip_weak, is_quote}

-- `.trim_start_matches("W/").trim_matches('"')`
abbrev pub opaque_tag : List ℕ → List ℕ
opaque_tag s = trim_both is_quote (strip_weak s)

-- The tags that an If-None-Match lists; empty ones do not count.
unfoldable pub listed_tags : List ℕ → List (List ℕ)
listed_tags if_none_match =
    select (λ s. not (is_empty s))
      (map (λ s. opaque_tag (trim_both is_whitespace s)) (split 44 if_none_match))

unfoldable pub etag_matches_any : List ℕ → List ℕ → Bool
unfolding listed_tags
etag_matches_any cached_etag if_none_match =
    any_of (λ e. same_chars e (opaque_tag cached_etag)) (listed_tags if_none_match)

abbrev pub last_slash : ℕ → Option ℕ → List ℕ → Option ℕ
last_slash i found [] = found
last_slash i found (c ∷ s) = last_slash (suc i) (if c == 47 then some i else found) s

-- `base_url[..host_end]`, where a path follows the host; all of it where none does.
abbrev pub before_path : List ℕ → List ℕ → Option (List ℕ × List ℕ) → List ℕ
before_path base_url scheme none = base_url
before_path base_url scheme (some (host, path)) = scheme ++ (chars "://" ++ host)

unfoldable pub origin_of : List ℕ → Option (List ℕ × List ℕ) → List ℕ
origin_of base_url none = base_url
origin_of base_url (some (scheme, rest)) =
    before_path base_url scheme (find_text (chars "/") (drop 3 rest))

-- Where the scheme ends; 0 for a URL without one.
abbrev pub scheme_end : Option (List ℕ × List ℕ) → ℕ
scheme_end none = 0
scheme_end (some (scheme, rest)) = length scheme + 3

abbrev pub dir_of : List ℕ → ℕ → Option ℕ → List ℕ
dir_of base_url from none = base_url
dir_of base_url from (some pos) = if ltb from pos then take pos base_url else base_url

unfoldable pub resolve_redirect : List ℕ → List ℕ → List ℕ
unfolding origin_of
resolve_redirect base_url [] = base_url
resolve_redirect base_url (c ∷ location) =
    if contains (chars "://") (c ∷ location)
    then c ∷ location
    else if c == 47
    then origin_of base_url (find_text (chars "://") base_url) ++ c ∷ location
    else dir_of base_url (scheme_end (find_text (chars "://") base_url))
        (last_slash 0 none base_url)
      ++ 47 ∷ c ∷ location
