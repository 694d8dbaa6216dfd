-- ===== src/Service/Probe.antt =====
-- `probe_file_metadata`, `fetch_file_metadata` and `validate_file_etag` of src/service.rs. The replies
-- of the HTTP client are arguments; the second is the one that the redirect's target would give.
pub mod Outcome
use hugrs.Prelude.{
  ℕ, suc, ◌-◌, ◌^◌, String, Bool, true, false, not, ◌&&◌, ◌||◌, Option, none, some, List, [], ◌∷◌,
  ℤ, pos, negsuc, Result, ok, err, leb, ltb, ◌==◌, str_eq, if◌then◌else◌, chars, contains, find,
  select, map, is_zero,
}
use hugrs.Prelude.Decimal.{parse_u64, u64_mod}
use hugrs.Service.Refresh.{FetchedMetadata}
use hugrs.Server.Conditional.{resolve_redirect}

-- A header, with none for a value that is not visible ASCII.
abbrev pub HeaderMap : Type 0
HeaderMap = List (String × Option String)

pub record Reply : Type 0 where
  pub status : ℕ
  pub headers : HeaderMap

pub data MetadataProbeResult : Type 0 where
  metadata : FetchedMetadata → MetadataProbeResult
  upstream_failure : ℕ → List (String × String) → MetadataProbeResult

unfoldable pub use_get_for_first_hop_probe : String → String → Bool
use_get_for_first_hop_probe source url =
    str_eq source "ms"
    && contains (chars "/api/v1/models/") (chars url)
    && contains (chars "/repo?") (chars url)

abbrev pub is_success : ℕ → Bool
is_success status = leb 200 status && ltb status 300

abbrev pub is_redirection : ℕ → Bool
is_redirection status = leb 300 status && ltb status 400

abbrev pub value_of : Option (String × Option String) → Option String
value_of none = none
value_of (some h) = h.1

-- headers.get(name).and_then(|v| v.to_str().ok())
unfoldable pub header : String → HeaderMap → Option String
header name headers = value_of (find (λ h. str_eq h.0 name) headers)

abbrev pub or_empty : Option String → String
or_empty none = ""
or_empty (some s) = s

-- The headers of a failure that are passed on.
unfoldable pub forwarded : HeaderMap → List (String × String)
forwarded headers =
    map (λ h. (h.0, or_empty h.1)) (select (λ h. not (str_eq h.0 "transfer-encoding")) headers)

-- str::parse::<i64>: a number below 2 ^ 63, or one down to -2 ^ 63.
abbrev pub i64_of : Option ℕ → Option ℤ
i64_of none = none
i64_of (some n) = if ltb n (2 ^ 63) then some (pos n) else none

abbrev pub negated : Option ℕ → Option ℤ
negated none = none
negated (some n) =
    if n == 0 then some (pos 0) else if leb n (2 ^ 63) then some (negsuc (n - 1)) else none

-- After a minus sign no second sign is read.
unfoldable pub parse_i64 : List ℕ → Option ℤ
parse_i64 [] = none
parse_i64 (c ∷ []) = i64_of (parse_u64 (c ∷ []))
parse_i64 (c ∷ d ∷ s) =
    if c == 45
    then (if d == 43 then none else negated (parse_u64 (d ∷ s)))
    else i64_of (parse_u64 (c ∷ d ∷ s))

unfoldable pub linked_size : HeaderMap → Option ℤ
unfolding header parse_i64
linked_size headers = elim (header "x-linked-size" headers) [
  | none ↦ none
  | some v ↦ parse_i64 (chars v)
]

abbrev pub number_or_zero : Option ℕ → ℕ
number_or_zero none = 0
number_or_zero (some n) = n

abbrev pub parsed_length : Option String → ℕ
parsed_length none = 0
parsed_length (some v) = number_or_zero (parse_u64 (chars v))

-- The length, the tag and the type that a reply gives.
pub record Details : Type 0 where
  pub upstream_size : ℕ
  pub etag : Option String
  pub content_type : Option String

unfoldable pub details : HeaderMap → Details
unfolding header
details headers = record {
  upstream_size = parsed_length (header "content-length" headers);
  etag = header "etag" headers;
  content_type = header "content-type" headers;
}

abbrev pub followed : Result String Reply → Result String Details
followed (err e) = err "redirect follow failed"
followed (ok r) = ok (details r.headers)

-- `x as u64`: the bits of an i64.
unfoldable pub as_u64 : ℤ → ℕ
as_u64 (pos n) = n
as_u64 (negsuc n) = u64_mod - suc n

abbrev pub or_zero : Option ℤ → ℤ
or_zero none = pos 0
or_zero (some n) = n

unfoldable pub size_of : ℕ → Option ℤ → ℕ
unfolding as_u64
size_of upstream_size linked =
    if ltb 0 upstream_size then upstream_size else as_u64 (or_zero linked)

abbrev pub sized : HeaderMap → Details → ℕ → Result String MetadataProbeResult
sized headers d size =
    if size == 0
    then err "cannot determine file size"
    else ok (
        metadata (record {
          size = size;
          etag = d.etag;
          content_type = d.content_type;
          x_repo_commit = header "x-repo-commit" headers;
          x_linked_size = linked_size headers;
          x_linked_etag = header "x-linked-etag" headers;
        }))

abbrev pub concluded : HeaderMap → Result String Details → Result String MetadataProbeResult
concluded headers (err e) = err e
concluded headers (ok d) = sized headers d (size_of d.upstream_size (linked_size headers))

abbrev pub target_of : String → Reply → List ℕ
target_of url r = resolve_redirect (chars url) (chars (or_empty (header "location" r.headers)))

abbrev pub last_details :
    Bool → String → (List ℕ → Result String Reply) → Reply → Result String Details
last_details true url follow r = followed (follow (target_of url r))
last_details false url follow r = ok (details r.headers)

-- What the first reply leads to; `follow` is the HEAD request for another URL.
unfoldable pub probed :
    String → (List ℕ → Result String Reply) → Reply → Result String MetadataProbeResult
unfolding forwarded linked_size details size_of header resolve_redirect
probed url follow r =
    if not (is_success r.status) && not (is_redirection r.status)
    then ok (upstream_failure r.status (forwarded r.headers))
    else concluded r.headers (last_details (is_redirection r.status) url follow r)

-- The requests of a probe: GET or HEAD for the first hop, HEAD behind a redirect.
pub record Http : Type 0 where
  pub get : String → Result String Reply
  pub head : String → Result String Reply
  pub follow : List ℕ → Result String Reply

abbrev pub answered :
    String
    → (List ℕ → Result String Reply)
    → Result String Reply
    → Result String MetadataProbeResult
answered url follow (err e) = err e
answered url follow (ok r) = probed url follow r

unfoldable pub probe_file_metadata : Http → String → String → Result String MetadataProbeResult
unfolding probed use_get_for_first_hop_probe
probe_file_metadata http source url =
    answered url http.follow
      (if use_get_for_first_hop_probe source url then http.get url else http.head url)

pub record EtagValidationOutcome : Type 0 where
  pub matched : Bool
  pub content_type : Option String

-- The tag of the upstream server is compared as it stands; no tag matches.
abbrev pub tag_matches : String → Option String → Bool
tag_matches cached_etag none = true
tag_matches cached_etag (some upstream) = str_eq upstream cached_etag

unfoldable pub validate_file_etag :
    String → Option (Result String MetadataProbeResult) → Result String EtagValidationOutcome
validate_file_etag cached_etag none = err "etag validation timed out"
validate_file_etag cached_etag (some (err e)) = err e
validate_file_etag cached_etag (some (ok (upstream_failure status headers))) =
    err "upstream returned a failure"
validate_file_etag cached_etag (some (ok (metadata m))) =
    ok (record { matched = tag_matches cached_etag m.etag; content_type = m.content_type })
