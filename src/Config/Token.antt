-- ===== src/Config/Token.antt =====
-- `ensure_admin_token` of src/config.rs. The token file is its text, none where it cannot be read; the
-- token that is made from the process id and the time is a parameter, and so is what comes of writing
-- it: the directory, the file or the writing may fail, with something left in the file.
use hugrs.Prelude.{
  ◌≡◌, refl, sym, subst, ◌⊎◌, String, false, Option, none, some, Result, ok, err, is_empty,
  trim_both, is_whitespace, if◌then◌else◌, Bool-cases, inl, inr,
}
use hugrs.Config.{Text, AdminConfig}

abbrev pub trim : Text → Text
trim = trim_both is_whitespace

-- What comes of `create_dir_all`, `File::create` and `write_all`.
pub data Writing : Type 0 where
  written : Writing
  write_failed : String → Option Text → Writing

-- The token or the error, the configuration afterwards, and the file afterwards.
pub record Ensured : Type 0 where
  pub token : Result String Text
  pub admin : AdminConfig
  pub file : Option Text

abbrev pub made : Writing → Text → AdminConfig → Ensured
made written fresh admin = record {
  token = ok fresh;
  admin = record admin { token = some fresh };
  file = some fresh;
}
made (write_failed e left) fresh admin = record { token = err e; admin = admin; file = left }

abbrev pub read_token : Writing → Text → AdminConfig → Option Text → Ensured
read_token w fresh admin none = made w fresh admin
read_token w fresh admin (some text) = if is_empty (trim text) then made w fresh admin else record {
  token = ok (trim text);
  admin = record admin { token = some (trim text) };
  file = some text;
}

abbrev pub configured : Writing → Text → AdminConfig → Option Text → Option Text → Ensured
configured w fresh admin file none = read_token w fresh admin file
configured w fresh admin file (some token) = record { token = ok token; admin = admin; file = file }

unfoldable pub ensure_admin_token : Writing → Text → AdminConfig → Option Text → Ensured
ensure_admin_token w fresh admin file = configured w fresh admin file admin.token

-- A token that is made has no outer whitespace and is not empty.
abbrev pub IsMade : Text → Type 0
IsMade t = (trim t ≡ t) × (is_empty t ≡ false)

-- The start ended with the error of a writing, and the configuration has no token.
abbrev pub IsRefused : Writing → AdminConfig → Ensured → Type 0
IsRefused w admin first =
    (e : String) × (left : Option Text) × (w ≡ write_failed e left)
    × (first ≡ record { token = err e; admin = admin; file = left })

-- Both starts have the token, and the second leaves the file of the first.
abbrev pub Agree : Ensured → Ensured → Type 0
Agree first second =
    (token : Text) × (first.token ≡ ok token)
    × (second.token ≡ ok token)
    × (second.file ≡ first.file)

-- Without a configured token: where the writing of the file does not fail, or is not needed, a later
-- start with the same configuration, whatever token it would make and whatever would come of writing
-- it, has the token that the first start had, and leaves the file as it is. Where the writing that the
-- first start needs fails, it ends with that error, and leaves the configuration without a token.
pub ensure_twice :
    (w later_w : Writing) (fresh later : Text) (admin : AdminConfig) (file : Option Text)
    → admin.token ≡ none
    → IsMade fresh
    → let first = ensure_admin_token w fresh admin file in
      Agree first (ensure_admin_token later_w later admin first.file) ⊎ IsRefused w admin first
unfolding ensure_admin_token
ensure_twice w later_w fresh later admin file unset made_ =
    subst
      (λ t.
        let first = configured w fresh admin file t in
        Agree first (configured later_w later admin first.file t) ⊎ IsRefused w admin first)
      (sym unset) (again file)
  where
    after_made :
        (v : Writing)
        → let first = made v fresh admin in
          Agree first (read_token later_w later admin first.file) ⊎ IsRefused v admin first
    after_made written = inl (fresh, refl, rw (made_.0, made_.1) refl, rw (made_.0, made_.1) refl)
    after_made (write_failed e left) = inr (e, left, refl, refl)

    again :
        (f : Option Text)
        → let first = read_token w fresh admin f in
          Agree first (read_token later_w later admin first.file) ⊎ IsRefused w admin first
    again none = after_made w
    again (some text) = elim (Bool-cases (is_empty (trim text))) [
      | inl blank ↦ rw blank (after_made w)
      | inr full ↦ rw full (inl (trim text, refl, rw full refl, rw full refl))
    ]
