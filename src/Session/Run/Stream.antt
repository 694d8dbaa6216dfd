-- ===== src/Session/Run/Stream.antt =====
-- What the client of a channel reads.
use hugrs.Prelude.{
  ℕ, ◌≡◌, refl, ap, sym, String, List, [], ◌∷◌, ◌++◌, append_assoc, Result, ok, err, ◌==◌,
  if◌then◌else◌, Bool-cases, inl, inr,
}
use hugrs.Session.State.{Message}

-- The bytes up to the first error: the error, where there is one.
abbrev pub read_body : Result String (List ℕ) → Result String (List ℕ) → Result String (List ℕ)
read_body (err e) rest = err e
read_body (ok bytes) (err e) = err e
read_body (ok bytes) (ok more) = ok (bytes ++ more)

unfoldable pub stream_of : ℕ → List Message → Result String (List ℕ)
stream_of channel [] = ok []
stream_of channel (m ∷ ms) =
    let rest = stream_of channel ms in if m.to == channel then read_body m.body rest else rest

pub read_body_assoc :
    (a b c : Result String (List ℕ)) → read_body a (read_body b c) ≡ read_body (read_body a b) c
read_body_assoc (err e) b c = refl
read_body_assoc (ok x) (err e) c = refl
read_body_assoc (ok x) (ok y) (err e) = refl
read_body_assoc (ok x) (ok y) (ok z) = ap ok (sym (append_assoc x y z))

read_body-nil : (r : Result String (List ℕ)) → read_body (ok []) r ≡ r
read_body-nil (ok x) = refl
read_body-nil (err e) = refl

pub stream-append :
    (channel : ℕ) (xs ys : List Message)
    → stream_of channel (xs ++ ys) ≡ read_body (stream_of channel xs) (stream_of channel ys)
unfolding stream_of
stream-append channel [] ys = sym (read_body-nil (stream_of channel ys))
stream-append channel (m ∷ ms) ys = elim (Bool-cases (m.to == channel)) [
  | inl e ↦
      rw (e, stream-append channel ms ys)
        (read_body_assoc m.body (stream_of channel ms) (stream_of channel ys))
  | inr n ↦ rw n (stream-append channel ms ys)
]
