-- ===== src/Session/Ranges.antt =====
-- Byte ranges of src/session.rs: what a request may ask for, and where a chunk lies in its file.
use hugrs.Prelude.{
  ℕ, zero, suc, ◌+◌, ◌-◌, ◌*◌, ◌/◌, ◌≤◌, ◌<◌, ◌≡◌, String, ◌||◌, Option, none, some, Result, ok,
  err, ltb, leb, if◌then◌else◌, min, max, ◌↔◌, ◌⊎◌, inl, inr, refl, Bool-cases, arith,
}

-- CHUNK_SIZE of src/service.rs: 4 * 1024 * 1024
abbrev pub chunk_size : ℕ
chunk_size = 4194304

-- usize::div_ceil(CHUNK_SIZE)
abbrev pub chunks_of : ℕ → ℕ
chunks_of total_size = (total_size + (chunk_size - 1)) / chunk_size

-- The range of a request: its start, and its last byte where the client gave one.
abbrev pub Range : Type 0
Range = Option (ℕ × Option ℕ)

abbrev pub req_start : Range → ℕ
req_start none = 0
req_start (some (start, end)) = start

abbrev pub req_last : Range → Option ℕ
req_last none = none
req_last (some (start, end)) = end

-- `total_size.saturating_sub(1)` for an open end, and as the upper bound of any end.
abbrev pub req_end : ℕ → Range → ℕ
req_end total_size r =
    min (elim (req_last r) [ none ↦ total_size - 1 | some e ↦ e ]) (total_size - 1)

pub record Span : Type 0 where
  pub start : ℕ
  pub last : ℕ
  pub content_length : ℕ

-- The checks of `ActorHandle::subscribe`.
unfoldable pub resolve_range : ℕ → Range → Result String Span
resolve_range total_size r =
    if ltb (req_end total_size r) (req_start r) || leb total_size (req_start r)
    then err "invalid range"
    else ok (record {
      start = req_start r;
      last = req_end total_size r;
      content_length = req_end total_size r - req_start r + 1;
    })

-- The bytes of a chunk, first and last, as `download_and_forward` asks for them.
abbrev pub chunk_first : ℕ → ℕ
chunk_first idx = idx * chunk_size

abbrev pub chunk_last : ℕ → ℕ → ℕ
chunk_last total_size idx = min (idx * chunk_size + chunk_size - 1) (total_size - 1)

-- `prefetch_budget`
unfoldable pub prefetch_budget : ℕ → ℕ → ℕ
prefetch_budget base zero = base
prefetch_budget base (suc zero) = base
prefetch_budget base (suc (suc zero)) = max (base / 2) 1
prefetch_budget base (suc (suc (suc n))) = max (base / 4) 1

-- What an accepted range is: it starts where the request says, lies inside the file, ends no later
-- than the request says, and has a positive length that counts its bytes.
pub record IsServed (total_size : ℕ) (r : Range) (s : Span) : Type 0 where
  pub starts : s.start ≡ req_start r
  pub ordered : s.start ≤ s.last
  pub inside : s.last < total_size
  pub counted : s.start + s.content_length ≡ s.last + 1
  pub bounded : (e : ℕ) → req_last r ≡ some e → s.last ≤ e

-- An accepted range starts where the request says, lies inside the file, ends no later than the
-- request says, and its length is positive and counts its bytes.
pub resolve_range-IsServed :
    (total_size : ℕ) (r : Range) (s : Span)
    → resolve_range total_size r ≡ ok s
    → IsServed total_size r s
unfolding resolve_range
resolve_range-IsServed total_size r s e = record {
  starts = ground arith;
  ordered = ground arith;
  inside = ground arith;
  counted = ground arith;
  bounded = λ x h. ground arith;
}

-- A range is refused exactly when its start is past the end of the file or past its own end.
pub resolve_range-refuses :
    (total_size : ℕ) (r : Range)
    → (resolve_range total_size r ≡ err "invalid range")
      ↔ ((total_size ≤ req_start r) ⊎ ((e : ℕ) × (req_last r ≡ some e) × (e < req_start r)))
unfolding resolve_range
resolve_range-refuses total_size none = (λ h. ground arith, λ h. ground arith)
resolve_range-refuses total_size (some (start, none)) = (λ h. ground arith, λ h. ground arith)
resolve_range-refuses total_size (some (start, some e)) = (refused, λ h. ground arith)
  where
    refused :
        resolve_range total_size (some (start, some e)) ≡ err "invalid range"
        → (total_size ≤ start) ⊎ ((x : ℕ) × (◌≡◌ {A = Option ℕ} (some e) (some x)) × (x < start))
    refused h = elim (Bool-cases (leb total_size start)) [
      | inl past ↦ inl (ground arith)
      | inr inside ↦ inr (e, refl, ground arith)
    ]
