-- ===== src/Server/Response/ContentRange.antt =====
-- When the `Content-Range` of `build_stream_response` names the bytes that are served.
use hugrs.Prelude.{
  ℕ, ◌-◌, ◌<◌, ◌≡◌, ◌↔◌, refl, sym, true, false, Option, none, some, List, [], ◌∷◌, ◌++◌, ok, All,
  ◌==◌, chars, arith, ap, ◌∙◌, min, subst₂,
}
use hugrs.Prelude.CharsLaws.{append_cancel, split_equal}
use hugrs.Prelude.Decimal.{
  u64_mod, is_digit, show_u64, show_u64-IsDigits, parse_u64, parse_u64-show_u64,
}
use hugrs.Session.Ranges.{Range, resolve_range, Span, req_start, req_end}
use hugrs.Server.Range.RoundTrip.{digits-without}
use hugrs.Server.Response.{content_range, end_text}

some_equal : (a b : ℕ) → ◌≡◌ {A = Option ℕ} (some a) (some b) → a ≡ b
some_equal a b h = cc

-- Numbers that are written alike are equal.
pub show_u64_injective : (a b : ℕ) → a < u64_mod → b < u64_mod → show_u64 a ≡ show_u64 b → a ≡ b
show_u64_injective a b ha hb h =
    some_equal a b (sym (parse_u64-show_u64 a ha) ∙ ap parse_u64 h ∙ parse_u64-show_u64 b hb)

end_text-without : (end : Option ℕ) → All (λ x. (x == 47) ≡ false) (end_text end)
end_text-without none = (refl, tt)
end_text-without (some e) = digits-without 47 e refl

-- Equal headers write the same end.
same_end :
    (total_size start : ℕ) (end : Option ℕ) (last : ℕ)
    → content_range total_size start end ≡ content_range total_size start (some last)
    → end_text end ≡ show_u64 last
unfolding content_range
same_end total_size start end last h =
    (split_equal 47 (end_text end) total (show_u64 last) total (end_text-without end)
      (end_text-without (some last)) behind).0
  where
    total : List ℕ
    total = show_u64 total_size

    behind : end_text end ++ 47 ∷ total ≡ show_u64 last ++ 47 ∷ total
    behind =
        (split_equal 45 (show_u64 start) (end_text end ++ 47 ∷ total) (show_u64 start)
          (show_u64 last ++ 47 ∷ total) (digits-without 45 start refl)
          (digits-without 45 start refl) (append_cancel (chars "bytes ") _ _ h)).1

star_no_number : (s : List ℕ) → All (λ c. is_digit c ≡ true) s → 42 ∷ [] ≡ s → ⊥
star_no_number [] h e = absurd (ground arith)
star_no_number (c ∷ s) h e = absurd (ground arith)

accepted :
    (total_size : ℕ) (r : Range) (s : Span)
    → resolve_range total_size r ≡ ok s
    → (s.start ≡ req_start r) × (s.last ≡ req_end total_size r) × (req_start r < total_size)
unfolding resolve_range
accepted total_size r s h = ground arith

-- With the end that is served written out.
end_true_iff :
    (total_size start : ℕ) (end : Option ℕ)
    → total_size < u64_mod
    → ((e : ℕ) → end ≡ some e → e < u64_mod)
    → start < total_size
    → (content_range total_size start end
        ≡ content_range total_size start (some (req_end total_size (some (start, end)))))
      ↔ ((e : ℕ) × (end ≡ some e) × (e < total_size))
end_true_iff total_size start none fits ends inside = (
  λ h. absurd (star_no_number _ (show_u64-IsDigits (total_size - 1)) (star h)),
  λ (e, h, lt). absurd (ground arith),
)
  where
    star :
        content_range total_size start none
          ≡ content_range total_size start (some (req_end total_size (some (start, none))))
        → 42 ∷ [] ≡ show_u64 (total_size - 1)
    star h = same_end total_size start none _ h ∙ ap show_u64 (omega arith)
end_true_iff total_size start (some e) fits ends inside = (
  λ h. (e, refl, below h),
  λ (x, h, lt). ap (λ l. content_range total_size start (some l)) (ground arith),
)
  where
    below :
        content_range total_size start (some e)
          ≡ content_range total_size start (some (min e (total_size - 1)))
        → e < total_size
    below h = omega (
      arith,
      show_u64_injective e (min e (total_size - 1)) (ends e refl) (omega arith)
          (same_end total_size start (some e) _ h),
    )

-- For an accepted range of a file whose size is a u64, the `Content-Range` of the response names the
-- bytes that are served exactly when the client named an end inside the file: an open end is written
-- `*`, and an end past the file is repeated as it came.
pub content_range_true_iff :
    (total_size start : ℕ) (end : Option ℕ) (s : Span)
    → total_size < u64_mod
    → ((e : ℕ) → end ≡ some e → e < u64_mod)
    → resolve_range total_size (some (start, end)) ≡ ok s
    → (content_range total_size start end ≡ content_range total_size s.start (some s.last))
      ↔ ((e : ℕ) × (end ≡ some e) × (e < total_size))
content_range_true_iff total_size start end s fits ends r =
    let (starts, ends_at, inside) = accepted total_size (some (start, end)) s r in
    subst₂
      (λ a b.
        (content_range total_size start end ≡ content_range total_size a (some b))
        ↔ ((e : ℕ) × (end ≡ some e) × (e < total_size)))
      (sym starts) (sym ends_at) (end_true_iff total_size start end fits ends inside)
