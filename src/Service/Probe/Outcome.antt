-- ===== src/Service/Probe/Outcome.antt =====
-- When a probe gives metadata.
use hugrs.Prelude.{
  ℕ, ◌<◌, ◌≡◌, String, Bool, true, false, List, Result, ok, err, if◌then◌else◌, ◌⊎◌, inl, inr,
  arith, refl, ap, ◌∙◌,
}
use hugrs.Service.Refresh.{FetchedMetadata}
use hugrs.Service.Probe.{
  HeaderMap, Reply, MetadataProbeResult, metadata, upstream_failure, is_redirection, header,
  details, Details, sized, concluded, followed, last_details, target_of, probed, forwarded,
}

sized-metadata :
    (headers : HeaderMap) (d : Details) (size : ℕ) (m : FetchedMetadata)
    → sized headers d size ≡ ok (metadata m)
    → (0 < m.size) × (m.etag ≡ d.etag) × (m.x_linked_etag ≡ header "x-linked-etag" headers)
sized-metadata headers d size m h = ground arith

-- The reply that the tag of a probe comes from: the first, or the one behind its redirect.
abbrev pub IsLast : String → (List ℕ → Result String Reply) → Reply → Reply → Type 0
IsLast url follow first last =
    ((is_redirection first.status ≡ false) × (last ≡ first))
    ⊎ ((is_redirection first.status ≡ true) × (follow (target_of url first) ≡ ok last))

concluded-metadata :
    (headers : HeaderMap) (r : Result String Details) (m : FetchedMetadata)
    → concluded headers r ≡ ok (metadata m)
    → (d : Details) × (r ≡ ok d)
      × (0 < m.size)
      × (m.etag ≡ d.etag)
      × (m.x_linked_etag ≡ header "x-linked-etag" headers)
concluded-metadata headers (err e) m h = absurd (ground arith)
concluded-metadata headers (ok d) m h = (d, refl, found.0, found.1, found.2)
  where
    found : (0 < m.size) × (m.etag ≡ d.etag) × (m.x_linked_etag ≡ header "x-linked-etag" headers)
    found = sized-metadata headers d _ m h

followed-ok :
    (r : Result String Reply) (d : Details)
    → followed r ≡ ok d
    → (last : Reply) × (r ≡ ok last) × (d ≡ details last.headers)
followed-ok (err e) d h = absurd (ground arith)
followed-ok (ok r) d h = (r, refl, cc)

last_details-IsLast :
    (url : String) (follow : List ℕ → Result String Reply) (r : Reply) (d : Details) (b : Bool)
    → is_redirection r.status ≡ b
    → last_details b url follow r ≡ ok d
    → (last : Reply) × IsLast url follow r last × (d ≡ details last.headers)
last_details-IsLast url follow r d false e h = (r, inl (e, refl), cc)
last_details-IsLast url follow r d true e h =
    let (last, replied, same) = followed-ok (follow (target_of url r)) d h in
    (last, inr (e, replied), same)

not_a_failure :
    (b : Bool) (r : Reply) (x : Result String MetadataProbeResult) (m : FetchedMetadata)
    → (if b then ok (upstream_failure r.status (forwarded r.headers)) else x) ≡ ok (metadata m)
    → x ≡ ok (metadata m)
not_a_failure true r x m h = absurd (ground arith)
not_a_failure false r x m h = h

-- Where a probe gives metadata, its size is positive, its tag is that of the last reply, which is the
-- first one or the one that its redirect leads to, and its linked tag is that of the first.
pub probed-metadata :
    (url : String) (follow : List ℕ → Result String Reply) (r : Reply) (m : FetchedMetadata)
    → probed url follow r ≡ ok (metadata m)
    → (0 < m.size)
      × (m.x_linked_etag ≡ header "x-linked-etag" r.headers)
      × ((last : Reply) × IsLast url follow r last × (m.etag ≡ header "etag" last.headers))
unfolding probed details
probed-metadata url follow r m h =
    let (d, found, positive, tag, linked) =
      concluded-metadata r.headers _ m (not_a_failure _ r _ m h) in
    let (last, is_last, same) = last_details-IsLast url follow r d _ refl found in
    (positive, linked, (last, is_last, tag ∙ ap (λ x. x.etag) same))
