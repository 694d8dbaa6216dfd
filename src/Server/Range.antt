-- ===== src/Server/Range.antt =====
-- `parse_range` of src/server.rs, and the header that `fetch_chunk` of src/session.rs sends.
pub mod RoundTrip
use hugrs.Prelude.{
  ℕ, Option, none, some, List, [], ◌∷◌, ◌++◌, ltb, if◌then◌else◌, chars, strip_prefix, split_once,
  is_empty,
}
use hugrs.Prelude.Decimal.{parse_u64, show_u64}
use hugrs.Session.Ranges.{Range}

-- An end that is empty is no end; one that is not a number refuses the header.
abbrev pub some_end : Option ℕ → Option (Option ℕ)
some_end none = none
some_end (some e) = some (some e)

unfoldable pub parse_end : List ℕ → Option (Option ℕ)
parse_end [] = some none
parse_end (c ∷ s) = some_end (parse_u64 (c ∷ s))

unfoldable pub check_order : ℕ → Option (Option ℕ) → Range
check_order start none = none
check_order start (some none) = some (start, none)
check_order start (some (some end)) = if ltb end start then none else some (start, some end)

abbrev pub from_start : List ℕ → Option ℕ → Range
from_start end none = none
from_start end (some start) = check_order start (parse_end end)

abbrev pub parse_ends : Option (List ℕ × List ℕ) → Range
parse_ends none = none
parse_ends (some (start, end)) = from_start end (parse_u64 start)

abbrev pub parse_spec : Option (List ℕ) → Range
parse_spec none = none
parse_spec (some spec) = parse_ends (split_once 45 spec)

-- The value of the request's `range` header; none where it is missing or not visible ASCII.
unfoldable pub parse_range : Option (List ℕ) → Range
unfolding parse_end check_order
parse_range none = none
parse_range (some range) = parse_spec (strip_prefix (chars "bytes=") range)

-- format!("bytes={start}-{end}") of `fetch_chunk`
unfoldable pub range_header : ℕ → ℕ → List ℕ
range_header start end = chars "bytes=" ++ show_u64 start ++ 45 ∷ show_u64 end
