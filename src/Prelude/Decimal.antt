-- ===== src/Prelude/Decimal.antt =====
-- Go's decimal notation: strconv.Itoa of a number that is not negative, strconv.ParseUint(s, 10, 16),
-- and strings.SplitN(s, "-", 2).
use Prim.Native.Nat.{ℕ, zero, suc, ◌+◌, ◌-◌, ◌*◌, ◌/◌, ◌%◌, ◌≤◌, ◌<◌}
use mathlib.Core.Path.{◌≡◌, refl, ap, ◌∙◌}
use mathlib.Core.Logic.{◌≢◌, inl, inr}
use mathlib.Core.Bool.{Bool, true, false, ◌&&◌}
use mathlib.Core.Option.{Option, none, some}
use mathlib.Core.List.{[], ◌∷◌, ◌++◌}
use native.Mathlib.Omega.{arith}
use hyperd.Prelude.Tests.{ltb, leb, nat_beq, if◌then◌else◌, Bool-cases}
use hyperd.Prelude.Lists.{All, All-append}
use hyperd.Prelude.Text.{Text}

-- The digits of `n`, most significant first; the fuel is above `n`.
unfoldable pub itoa_fuel : ℕ → ℕ → Text
itoa_fuel zero n = []
itoa_fuel (suc f) n =
    let rest = itoa_fuel f (n / 10) ++ (b'0' + n % 10) ∷ [] in
    if ltb n 10 then (b'0' + n) ∷ [] else rest

unfoldable pub itoa : ℕ → Text
unfolding itoa_fuel
itoa n = itoa_fuel (suc n) n

abbrev pub is_digit : ℕ → Bool
is_digit c = leb b'0' c && leb c b'9'

unfoldable pub parse_digits : ℕ → Text → Option ℕ
parse_digits acc [] = some acc
parse_digits acc (c ∷ cs) =
    let rest = parse_digits (acc * 10 + (c - b'0')) cs in if is_digit c then rest else none

abbrev in_uint16 : Option ℕ → Option ℕ
in_uint16 none = none
in_uint16 (some n) = if leb n 65535 then some n else none

-- strconv.ParseUint(s, 10, 16)
unfoldable pub parse_uint16 : Text → Option ℕ
unfolding parse_digits
parse_uint16 [] = none
parse_uint16 (c ∷ cs) = in_uint16 (parse_digits 0 (c ∷ cs))

pub parse_uint16-le : (s : Text) (n : ℕ) → parse_uint16 s ≡ some n → n ≤ 65535
unfolding parse_uint16
parse_uint16-le [] n h = ground arith
parse_uint16-le (c ∷ cs) n h = ground arith

abbrev then_digit : ℕ → Option ℕ → Option ℕ
then_digit c none = none
then_digit c (some a) = if is_digit c then some (a * 10 + (c - b'0')) else none

parse_digits-append :
    (acc c : ℕ) (cs : Text) → parse_digits acc (cs ++ c ∷ []) ≡ then_digit c (parse_digits acc cs)
unfolding parse_digits
parse_digits-append acc c [] = ground arith
parse_digits-append acc c (d ∷ cs) =
    ground (arith, parse_digits-append (acc * 10 + (d - b'0')) c cs)

parse_digits-itoa : (f n : ℕ) → n < f → parse_digits 0 (itoa_fuel f n) ≡ some n
unfolding itoa_fuel parse_digits
parse_digits-itoa zero n h = elim h [ ]
parse_digits-itoa (suc f) n h = ground (
  arith,
  parse_digits-append 0 (b'0' + n % 10) (itoa_fuel f (n / 10)),
  parse_digits-itoa f (n / 10),
)

unfoldable pub IsDigits : Text → Type 0
IsDigits s = All (λ c. is_digit c ≡ true) s

itoa_fuel-IsDigits : (f n : ℕ) → IsDigits (itoa_fuel f n)
unfolding itoa_fuel IsDigits
itoa_fuel-IsDigits zero n = tt
itoa_fuel-IsDigits (suc f) n = elim (Bool-cases (ltb n 10)) [
  | inl small ↦ rw (small, itoa_fuel) (ground arith, tt)
  | inr big ↦
      rw (big, itoa_fuel)
        (All-append (λ c. is_digit c ≡ true) (itoa_fuel f (n / 10)) ((b'0' + n % 10) ∷ [])
          (itoa_fuel-IsDigits f (n / 10)) (ground arith, tt))
]

pub itoa-IsDigits : (n : ℕ) → IsDigits (itoa n)
unfolding itoa
itoa-IsDigits n = itoa_fuel-IsDigits (suc n) n

abbrev is_nil : Text → Bool
is_nil [] = true
is_nil (c ∷ cs) = false

parse_uint16-cons : (s : Text) → is_nil s ≡ false → parse_uint16 s ≡ in_uint16 (parse_digits 0 s)
unfolding parse_uint16
parse_uint16-cons [] h = ground arith
parse_uint16-cons (c ∷ cs) h = refl

is_nil-append : (s : Text) (c : ℕ) → is_nil (s ++ c ∷ []) ≡ false
is_nil-append [] c = refl
is_nil-append (x ∷ s) c = refl

itoa-cons : (n : ℕ) → is_nil (itoa n) ≡ false
unfolding itoa itoa_fuel
itoa-cons n = ground (arith, is_nil-append (itoa_fuel n (n / 10)) (b'0' + n % 10))

pub itoa-digits : (n : ℕ) → parse_digits 0 (itoa n) ≡ some n
unfolding itoa
itoa-digits n = parse_digits-itoa (suc n) n (omega arith)

-- A number of sixteen bits is read back from its decimal notation.
pub parse_uint16-itoa : (n : ℕ) → n ≤ 65535 → parse_uint16 (itoa n) ≡ some n
parse_uint16-itoa n h = parse_uint16-cons (itoa n) (itoa-cons n) ∙ ground (arith, itoa-digits n)

abbrev pub cons_first : ℕ → Text × Option Text → Text × Option Text
cons_first c (a, r) = (c ∷ a, r)

-- strings.SplitN(s, "-", 2): what stands before the first dash, and what stands behind it
unfoldable pub split_dash : Text → Text × Option Text
split_dash [] = ([], none)
split_dash (c ∷ cs) =
    let rest = cons_first c (split_dash cs) in if nat_beq c b'-' then ([], some cs) else rest

pub split_dash-digits : (s : Text) → IsDigits s → split_dash s ≡ (s, none)
unfolding split_dash IsDigits
split_dash-digits [] h = refl
split_dash-digits (c ∷ cs) h = ground (arith, split_dash-digits cs h.1)

pub split_dash-dash : (s t : Text) → IsDigits s → split_dash (s ++ b'-' ∷ t) ≡ (s, some t)
unfolding split_dash IsDigits
split_dash-dash [] t h = refl
split_dash-dash (c ∷ cs) t h = ground (arith, split_dash-dash cs t h.1)

pub itoa-IsNonempty : (n : ℕ) → itoa n ≢ []
itoa-IsNonempty n e = ground (arith, itoa-cons n, ap is_nil e)
