-- ===== src/Server/Conditional/Tags.antt =====
-- Entity tags as they are written in headers, and what `etag_matches_any` of src/server.rs makes of them.
use hugrs.Prelude.{
  ℕ, ◌≡◌, refl, ap, ◌∙◌, Bool, true, false, List, [], ◌∷◌, ◌++◌, All, All-append, All-mono, ◌==◌,
  is_whitespace, trim_both, is_empty, same_chars, any_of, arith,
}
use hugrs.Prelude.CharsLaws.{Begins, Ends, trim_both-pad}
use hugrs.Service.Refresh.{strip_weak, is_quote}
use hugrs.Server.Conditional.{opaque_tag, listed_tags, etag_matches_any}
use hugrs.Server.Conditional.Matching.{split-piece, listed_tags-append}

-- The text between the quotes: not empty, without commas and quotes.
abbrev pub IsTag : List ℕ → Type 0
IsTag tag = (is_empty tag ≡ false) × All (λ c. ((c == 44) ≡ false) × ((c == 34) ≡ false)) tag

-- "tag", or W/"tag" where it is weak.
abbrev pub written : Bool → List ℕ → List ℕ
written false tag = 34 ∷ (tag ++ 34 ∷ [])
written true tag = 87 ∷ 47 ∷ 34 ∷ (tag ++ 34 ∷ [])

-- One entry of the list, with the whitespace around it.
pub record Entry : Type 0 where
  pub left : List ℕ
  pub weak : Bool
  pub tag : List ℕ
  pub right : List ℕ

pub record IsEntry (e : Entry) : Type 0 where
  pub left_blank : All (λ c. is_whitespace c ≡ true) e.left
  pub is_tag : IsTag e.tag
  pub right_blank : All (λ c. is_whitespace c ≡ true) e.right

abbrev pub entry_text : Entry → List ℕ
entry_text e = e.left ++ (written e.weak e.tag ++ e.right)

-- The value of If-None-Match: the entries with commas between them.
abbrev pub header_text : List Entry → List ℕ
header_text [] = []
header_text (e ∷ []) = entry_text e
header_text (e ∷ f ∷ es) = entry_text e ++ 44 ∷ header_text (f ∷ es)

tag-Begins : (tag : List ℕ) → IsTag tag → Begins is_quote tag
tag-Begins [] h = absurd (ground arith)
tag-Begins (c ∷ cs) h = (c, cs, refl, h.1.0.1)

tag-Ends : (tag : List ℕ) → IsTag tag → Ends is_quote tag
tag-Ends [] h = absurd (ground arith)
tag-Ends (c ∷ []) h = (c, [], refl, h.1.0.1)
tag-Ends (c ∷ d ∷ cs) h =
    let (l, front, eq, out) = tag-Ends (d ∷ cs) (refl, h.1.1) in
    (l, c ∷ front, ap (λ r. c ∷ r) eq, out)

strip_weak-written :
    (weak : Bool) (tag : List ℕ) → IsTag tag → strip_weak (written weak tag) ≡ written false tag
strip_weak-written weak [] h = absurd (ground arith)
strip_weak-written false (c ∷ cs) h = refl
strip_weak-written true (c ∷ cs) h = refl

opaque_tag-written : (weak : Bool) (tag : List ℕ) → IsTag tag → opaque_tag (written weak tag) ≡ tag
opaque_tag-written weak tag h =
    ap (trim_both is_quote) (strip_weak-written weak tag h)
    ∙ trim_both-pad is_quote (34 ∷ []) tag (34 ∷ []) (refl, tt) (refl, tt) (tag-Begins tag h)
        (tag-Ends tag h)

written-Begins : (weak : Bool) (tag : List ℕ) → Begins is_whitespace (written weak tag)
written-Begins false tag = (34, tag ++ 34 ∷ [], refl, refl)
written-Begins true tag = (87, 47 ∷ 34 ∷ (tag ++ 34 ∷ []), refl, refl)

written-Ends : (weak : Bool) (tag : List ℕ) → Ends is_whitespace (written weak tag)
written-Ends false tag = (34, 34 ∷ tag, refl, refl)
written-Ends true tag = (34, 87 ∷ 47 ∷ 34 ∷ tag, refl, refl)

abbrev NoComma : List ℕ → Type 0
NoComma = All (λ c. (c == 44) ≡ false)

blank-NoComma : (s : List ℕ) → All (λ c. is_whitespace c ≡ true) s → NoComma s
blank-NoComma = All-mono (λ c h. ground arith)

quoted-NoComma : (tag : List ℕ) → IsTag tag → NoComma (tag ++ 34 ∷ [])
quoted-NoComma tag h =
    All-append (λ c. (c == 44) ≡ false) tag (34 ∷ []) (All-mono (λ c k. k.0) tag h.1) (refl, tt)

written-NoComma : (weak : Bool) (tag : List ℕ) → IsTag tag → NoComma (written weak tag)
written-NoComma false tag h = (refl, quoted-NoComma tag h)
written-NoComma true tag h = (refl, (refl, (refl, quoted-NoComma tag h)))

entry_text-NoComma : (e : Entry) → IsEntry e → NoComma (entry_text e)
entry_text-NoComma e v =
    All-append (λ c. (c == 44) ≡ false) e.left _ (blank-NoComma e.left v.left_blank)
      (All-append (λ c. (c == 44) ≡ false) (written e.weak e.tag) e.right
        (written-NoComma e.weak e.tag v.is_tag) (blank-NoComma e.right v.right_blank))

entry-tag : (e : Entry) → IsEntry e → opaque_tag (trim_both is_whitespace (entry_text e)) ≡ e.tag
entry-tag e v =
    ap opaque_tag (
      trim_both-pad is_whitespace e.left (written e.weak e.tag) e.right v.left_blank v.right_blank
        (written-Begins e.weak e.tag) (written-Ends e.weak e.tag))
    ∙ opaque_tag-written e.weak e.tag v.is_tag

listed_tags-entry : (e : Entry) → IsEntry e → listed_tags (entry_text e) ≡ e.tag ∷ []
unfolding listed_tags
listed_tags-entry e v =
    rw (split-piece 44 (entry_text e) (entry_text-NoComma e v), entry-tag e v, v.is_tag.0) refl

abbrev tags_of : List Entry → List (List ℕ)
tags_of [] = []
tags_of (e ∷ es) = e.tag ∷ tags_of es

listed_tags-header : (es : List Entry) → All IsEntry es → listed_tags (header_text es) ≡ tags_of es
unfolding listed_tags
listed_tags-header [] v = refl
listed_tags-header (e ∷ []) v = listed_tags-entry e v.0
listed_tags-header (e ∷ f ∷ es) v =
    listed_tags-append (entry_text e) (header_text (f ∷ es))
    ∙ ap (λ r. r ++ listed_tags (header_text (f ∷ es))) (listed_tags-entry e v.0)
    ∙ ap (λ r. e.tag ∷ r) (listed_tags-header (f ∷ es) v.1)

any_of-tags :
    (tag : List ℕ) (es : List Entry)
    → any_of (λ t. same_chars t tag) (tags_of es) ≡ any_of (λ (e : Entry). same_chars e.tag tag) es
any_of-tags tag [] = refl
any_of-tags tag (e ∷ es) = rw (any_of-tags tag es) refl

-- For a list of any number of tags, each not empty and without commas and quotes, written between
-- quotes, weak or not, with any whitespace around it: a cached tag of that form matches exactly where
-- some tag of the list is the same between the quotes.
pub etag_matches_any_listed :
    (weak : Bool) (tag : List ℕ) (es : List Entry)
    → IsTag tag
    → All IsEntry es
    → etag_matches_any (written weak tag) (header_text es)
      ≡ any_of (λ (e : Entry). same_chars e.tag tag) es
unfolding etag_matches_any
etag_matches_any_listed weak tag es h v =
    ap (λ t. any_of (λ x. same_chars x t) (listed_tags (header_text es)))
      (opaque_tag-written weak tag h)
    ∙ ap (any_of (λ x. same_chars x tag)) (listed_tags-header es v)
    ∙ any_of-tags tag es
