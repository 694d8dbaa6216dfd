-- ===== src/Server/Range/RoundTrip.antt =====
-- What `parse_range` reads, and that it reads what `fetch_chunk` of another instance writes.
use hugrs.Prelude.{
  ℕ, ◌+◌, ◌-◌, ◌≤◌, ◌<◌, ◌≡◌, refl, false, some, List, [], ◌∷◌, ◌++◌, ok, All, All-mono, ◌==◌,
  chars, arith, ap, ◌∙◌, ◌≢◌,
}
use hugrs.Prelude.CharsLaws.{split_once-append}
use hugrs.Prelude.Decimal.{
  u64_mod, is_digit, show_u64, show_u64-IsDigits, show_u64-ne, parse_u64, parse_u64-show_u64,
}
use hugrs.Session.Ranges.{chunk_first, chunk_last, resolve_range}
use hugrs.Server.Range.{
  parse_range, parse_end, check_order, parse_ends, range_header, some_end, from_start,
}

pub digits-without : (c n : ℕ) → is_digit c ≡ false → All (λ x. (x == c) ≡ false) (show_u64 n)
digits-without c n h = All-mono (λ x d. ground arith) (show_u64 n) (show_u64-IsDigits n)

parse_end_of : (e : ℕ) (s : List ℕ) → s ≢ [] → parse_u64 s ≡ some e → parse_end s ≡ some (some e)
unfolding parse_end
parse_end_of e [] ne r = absurd (ne refl)
parse_end_of e (c ∷ s) ne r = ap some_end r

parse_end-show_u64 : (e : ℕ) → e < u64_mod → parse_end (show_u64 e) ≡ some (some e)
parse_end-show_u64 e h = parse_end_of e (show_u64 e) (show_u64-ne e) (parse_u64-show_u64 e h)

parse_range-header :
    (start : ℕ) (end : List ℕ)
    → start < u64_mod
    → parse_range (some (chars "bytes=" ++ show_u64 start ++ 45 ∷ end))
      ≡ check_order start (parse_end end)
unfolding parse_range
parse_range-header start end h =
    ap parse_ends (split_once-append 45 (show_u64 start) end (digits-without 45 start refl))
    ∙ ap (from_start end) (parse_u64-show_u64 start h)

-- The header that is written for a range of u64 numbers in order is read back as that range.
pub parse_range-range_header :
    (start end : ℕ)
    → start ≤ end
    → end < u64_mod
    → parse_range (some (range_header start end)) ≡ some (start, some end)
unfolding range_header check_order
parse_range-range_header start end ordered fits =
    parse_range-header start (show_u64 end) (omega arith)
    ∙ ap (check_order start) (parse_end-show_u64 end fits)
    ∙ ground arith

-- A chunk that one instance asks of another, with `bytes=first-last`, is served by that other as
-- exactly the bytes of the chunk, for every chunk of a file whose size is a u64.
pub chunk_request_served :
    (total_size idx : ℕ)
    → chunk_first idx < total_size
    → total_size < u64_mod
    → resolve_range total_size
        (parse_range (some (range_header (chunk_first idx) (chunk_last total_size idx))))
      ≡ ok (record {
        start = chunk_first idx;
        last = chunk_last total_size idx;
        content_length = chunk_last total_size idx - chunk_first idx + 1;
      })
unfolding resolve_range
chunk_request_served total_size idx inside fits =
    ap (resolve_range total_size) (
      parse_range-range_header (chunk_first idx) (chunk_last total_size idx) (omega arith)
        (omega arith))
    ∙ ground arith
