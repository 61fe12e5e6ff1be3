-- ===== src/Env/Numbers.antt =====
-- engine/env.go: what SetInt64 writes, GetInt64 reads.
use hyperd.Prelude.{suc, ◌<◌, ◌≡◌, refl, arith, false, [], ◌∷◌}
use hyperd.Prelude.Text.{Text}
use hyperd.Prelude.Int.{ℤ, pos, negsuc}
use hyperd.Prelude.Decimal.{itoa, IsDigits, itoa-IsDigits, itoa-IsNonempty}
use hyperd.Names.{parse_int, if_value, limit}
use hyperd.Names.Reading.{parse_int-digits, digits-itoa, unsigned-cons}
use hyperd.Services.{decimal}
use hyperd.Env.{Env, trim, trim_right, get_int64, set_int64}
use hyperd.Env.Access.{has, get-set_same}

trim_right-digits : (s : Text) → IsDigits s → trim_right s ≡ s
unfolding IsDigits
trim_right-digits [] h = refl
trim_right-digits (c ∷ []) h = ground (arith, h.0)
trim_right-digits (c ∷ d ∷ cs) h = rw (trim_right-digits (d ∷ cs) h.1) refl

trim-digits : (s : Text) → IsDigits s → trim s ≡ s
unfolding IsDigits
trim-digits [] h = refl
trim-digits (c ∷ cs) h = ground (arith, h.0, trim_right-digits (c ∷ cs) h)

trim-minus : (s : Text) → IsDigits s → trim (b'-' ∷ s) ≡ b'-' ∷ s
trim-minus [] h = refl
trim-minus (c ∷ cs) h = rw (trim_right-digits (c ∷ cs) h) refl

abbrev pub InInt64 : ℤ → Type 0
InInt64 (pos n) = n < limit
InInt64 (negsuc n) = n < limit

parse_int-decimal : (n : ℤ) → InInt64 n → if_value (parse_int 10 (trim (decimal n))) ≡ n
unfolding parse_int
parse_int-decimal (pos n) h =
    rw
      (
        trim-digits (itoa n) (itoa-IsDigits n),
        parse_int-digits (itoa n) (itoa-IsDigits n),
        unsigned-cons (itoa n) n (itoa-IsNonempty n) (digits-itoa n),
      )
      (ground (arith, h))
parse_int-decimal (negsuc n) h =
    rw
      (
        trim-minus (itoa (suc n)) (itoa-IsDigits (suc n)),
        unsigned-cons (itoa (suc n)) (suc n) (itoa-IsNonempty (suc n)) (digits-itoa (suc n)),
      )
      (ground (arith, h))

-- A number of 64 bits that SetInt64 writes under a key with no "=" is what GetInt64 reads.
pub get_int64-set_int64 :
    (key : Text) (n : ℤ) (env : Env)
    → has key ≡ false
    → InInt64 n
    → get_int64 key (set_int64 key n env) ≡ n
unfolding get_int64 set_int64
get_int64-set_int64 key n env h r = rw (get-set_same key (decimal n) env h) (parse_int-decimal n r)
