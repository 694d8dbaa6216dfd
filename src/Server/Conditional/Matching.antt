-- ===== src/Server/Conditional/Matching.antt =====
-- How a list of tags is cut, and where a redirect to a path leads.
use hugrs.Prelude.{
  ℕ, ◌≡◌, refl, Bool, true, false, not, some, none, List, [], ◌∷◌, ◌++◌, map, chars, split,
  cons_piece, trim_both, is_whitespace, is_empty, select, contains, starts_with, find_text, All,
  ◌==◌, arith, ap, Bool-cases, inl, inr, select, ◌∙◌, ◌⊎◌, append_assoc, if◌then◌else◌, append-nil,
}
use hugrs.Server.Conditional.{opaque_tag, listed_tags, resolve_redirect, origin_of}

-- The first piece of a split, which is never empty-handed.
cons_piece-append :
    (x c : ℕ) (xs : List ℕ) (qs : List (List ℕ))
    → cons_piece x (split c xs ++ qs) ≡ cons_piece x (split c xs) ++ qs
cons_piece-append x c [] qs = refl
cons_piece-append x c (d ∷ s) qs = elim (Bool-cases (d == c)) [
  | inl here ↦ rw here refl
  | inr later ↦ rw later (cons_twice (split c s))
]
  where
    cons_twice :
        (ps : List (List ℕ))
        → cons_piece x (cons_piece d ps ++ qs) ≡ cons_piece x (cons_piece d ps) ++ qs
    cons_twice [] = refl
    cons_twice (p ∷ ps) = refl

split-append : (c : ℕ) (xs ys : List ℕ) → split c (xs ++ c ∷ ys) ≡ split c xs ++ split c ys
split-append c [] ys = ground arith
split-append c (x ∷ xs) ys = elim (Bool-cases (x == c)) [
  | inl here ↦ rw (here, split-append c xs ys) refl
  | inr later ↦ rw (later, split-append c xs ys) (cons_piece-append x c xs (split c ys))
]

pub split-piece : (c : ℕ) (xs : List ℕ) → All (λ x. (x == c) ≡ false) xs → split c xs ≡ xs ∷ []
split-piece c [] h = refl
split-piece c (x ∷ xs) h = ground (arith, split-piece c xs h.1)

==_comm : (a b : ℕ) → (a == b) ≡ (b == a)
==_comm a b = ground arith

-- The search past a text without the first character of what is looked for.
find_text-append :
    (c : ℕ) (p xs ys : List ℕ)
    → All (λ x. (x == c) ≡ false) xs
    → starts_with (c ∷ p) ys ≡ true
    → find_text (c ∷ p) (xs ++ ys) ≡ some (xs, ys)
find_text-append c p [] [] h s = absurd (ground arith)
find_text-append c p [] (y ∷ ys) h s = rw s refl
find_text-append c p (x ∷ xs) ys h s = ground (arith, find_text-append c p xs ys h.1 s, ==_comm c x)

find_text-none :
    (c : ℕ) (p xs : List ℕ) → All (λ x. (x == c) ≡ false) xs → find_text (c ∷ p) xs ≡ none
find_text-none c p [] h = refl
find_text-none c p (x ∷ xs) h = ground (arith, find_text-none c p xs h.1, ==_comm c x)

map-append : (f : List ℕ → List ℕ) (xs ys : List (List ℕ)) → map f (xs ++ ys) ≡ map f xs ++ map f ys
map-append f [] ys = refl
map-append f (x ∷ xs) ys = ap (λ r. f x ∷ r) (map-append f xs ys)

select-append :
    (p : List ℕ → Bool) (xs ys : List (List ℕ)) → select p (xs ++ ys) ≡ select p xs ++ select p ys
select-append p [] ys = refl
select-append p (x ∷ xs) ys = ground (arith, select-append p xs ys)

pub listed_tags-append :
    (xs ys : List ℕ) → listed_tags (xs ++ 44 ∷ ys) ≡ listed_tags xs ++ listed_tags ys
unfolding listed_tags
listed_tags-append xs ys =
    ap (λ ps. select (λ s. not (is_empty s)) (map tag ps)) (split-append 44 xs ys)
    ∙ ap (select (λ s. not (is_empty s))) (map-append tag (split 44 xs) (split 44 ys))
    ∙ select-append (λ s. not (is_empty s)) (map tag (split 44 xs)) (map tag (split 44 ys))
  where
    tag : List ℕ → List ℕ
    tag s = opaque_tag (trim_both is_whitespace s)

-- A redirect to an absolute path, which names no scheme, stays on the scheme and the host of the
-- URL it came from, whether or not that URL has a path of its own.
pub resolve_redirect_path :
    (scheme host path location : List ℕ)
    → All (λ c. (c == 58) ≡ false) scheme
    → All (λ c. (c == 47) ≡ false) host
    → (path ≡ []) ⊎ (starts_with (chars "/") path ≡ true)
    → contains (chars "://") (47 ∷ location) ≡ false
    → resolve_redirect (scheme ++ (chars "://" ++ (host ++ path))) (47 ∷ location)
      ≡ scheme ++ (chars "://" ++ (host ++ 47 ∷ location))
unfolding resolve_redirect
resolve_redirect_path scheme host path location hs hh hp plain =
    ap
      (λ t.
        if t then 47 ∷ location else origin_of base (find_text (chars "://") base) ++ 47 ∷ location)
      plain
    ∙ ap (λ f. origin_of base f ++ 47 ∷ location)
        (find_text-append 58 (chars "//") scheme (chars "://" ++ (host ++ path)) hs (ground arith))
    ∙ ap (λ o. o ++ 47 ∷ location) (origin hp)
    ∙ append_assoc scheme (chars "://" ++ host) (47 ∷ location)
  where
    base : List ℕ
    base = scheme ++ (chars "://" ++ (host ++ path))

    origin :
        (path ≡ []) ⊎ (starts_with (chars "/") path ≡ true)
        → origin_of base (some (scheme, chars "://" ++ (host ++ path)))
          ≡ scheme ++ (chars "://" ++ host)
    origin (inl none_there) = rw (none_there, append-nil host, find_text-none 47 [] host hh) refl
    origin (inr there) = rw (find_text-append 47 [] host path hh there) refl
