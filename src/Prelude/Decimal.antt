-- ===== src/Prelude/Decimal.antt =====
-- Decimal numbers: `to_string` and `str::parse` of u64, with the round trip between them.
use Prim.Native.Nat.{ℕ, zero, suc, ◌+◌, ◌-◌, ◌*◌, ◌/◌, ◌%◌, ◌^◌, ◌<◌}
use mathlib.Core.Path.{◌≡◌, refl}
use mathlib.Core.Logic.{◌≢◌}
use mathlib.Core.Bool.{Bool, true, ◌&&◌}
use mathlib.Core.Option.{Option, none, some}
use mathlib.Core.List.{List, [], ◌∷◌}
use native.Mathlib.Omega.{arith}
use hugrs.Prelude.Tests.{leb, ltb, ◌==◌, if◌then◌else◌}
use hugrs.Prelude.Lists.{All}

abbrev pub u64_mod : ℕ
u64_mod = 2 ^ 64

abbrev pub is_digit : ℕ → Bool
is_digit c = leb 48 c && leb c 57

-- The digits behind the number n; a number that does not fit is refused.
unfoldable pub parse_digits : List ℕ → ℕ → Option ℕ
parse_digits [] n = some n
parse_digits (c ∷ s) n =
    let rest = parse_digits s (n * 10 + (c - 48)) in
    if is_digit c && ltb (n * 10 + (c - 48)) u64_mod then rest else none

-- One leading `+` is accepted before digits.
unfoldable pub parse_u64 : List ℕ → Option ℕ
unfolding parse_digits
parse_u64 [] = none
parse_u64 (c ∷ []) = parse_digits (c ∷ []) 0
parse_u64 (c ∷ d ∷ s) = if c == 43 then parse_digits (d ∷ s) 0 else parse_digits (c ∷ d ∷ s) 0

unfoldable pub digits : ℕ → ℕ → List ℕ → List ℕ
digits zero n out = out
digits (suc fuel) n out =
    let more = digits fuel (n / 10) ((48 + n % 10) ∷ out) in
    if ltb n 10 then (48 + n) ∷ out else more

-- Twenty digits are enough for a u64.
unfoldable pub show_u64 : ℕ → List ℕ
unfolding digits
show_u64 n = digits 20 n []

abbrev pow10 : ℕ → ℕ
pow10 zero = 1
pow10 (suc k) = 10 * pow10 k

parse_last :
    (n : ℕ) (out : List ℕ)
    → n < u64_mod
    → parse_digits ((48 + n % 10) ∷ out) (n / 10) ≡ parse_digits out n
unfolding parse_digits
parse_last n out h = ground arith

parse-digits :
    (fuel n : ℕ) (out : List ℕ)
    → n < pow10 fuel
    → n < u64_mod
    → parse_digits (digits fuel n out) 0 ≡ parse_digits out n
unfolding digits parse_digits
parse-digits zero n out h fits = ground arith
parse-digits (suc fuel) n out h fits =
    ground (arith, parse_last n out fits, parse-digits fuel (n / 10) ((48 + n % 10) ∷ out))

abbrev pub IsDigits : List ℕ → Type 0
IsDigits = All (λ c. is_digit c ≡ true)

digits-IsDigits : (fuel n : ℕ) (out : List ℕ) → IsDigits out → IsDigits (digits fuel n out)
unfolding digits
digits-IsDigits zero n out h = h
digits-IsDigits (suc fuel) n out h =
    ground (arith, digits-IsDigits fuel (n / 10) ((48 + n % 10) ∷ out))

pub show_u64-IsDigits : (n : ℕ) → IsDigits (show_u64 n)
unfolding show_u64
show_u64-IsDigits n = digits-IsDigits 20 n [] tt

digits-ne : (fuel n : ℕ) (out : List ℕ) → out ≢ [] → digits fuel n out ≢ []
unfolding digits
digits-ne zero n out h = h
digits-ne (suc fuel) n out h = grind (arith, digits-ne fuel (n / 10) ((48 + n % 10) ∷ out))

pub show_u64-ne : (n : ℕ) → show_u64 n ≢ []
unfolding show_u64 digits
show_u64-ne n = grind (arith, digits-ne 19 (n / 10) ((48 + n % 10) ∷ []))

parse-unsigned : (s : List ℕ) → IsDigits s → s ≢ [] → parse_u64 s ≡ parse_digits s 0
unfolding parse_u64
parse-unsigned [] h ne = absurd (ne refl)
parse-unsigned (c ∷ []) h ne = refl
parse-unsigned (c ∷ d ∷ s) h ne = ground arith

pub parse_u64-show_u64 : (n : ℕ) → n < u64_mod → parse_u64 (show_u64 n) ≡ some n
unfolding show_u64 parse_digits
parse_u64-show_u64 n h =
    rw
      (parse-unsigned _ (show_u64-IsDigits n) (show_u64-ne n), parse-digits 20 n [] (omega arith) h)
      refl
