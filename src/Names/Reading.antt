-- ===== src/Names/Reading.antt =====
-- utils/names.go, utils/utils.go and what else takes names apart: lemmas on the parts before and
-- after a separator, and on the numbers that strconv reads.
use hyperd.Prelude.{
  ℕ, ◌+◌, ◌-◌, ◌*◌, ◌<◌, ◌≡◌, ◌≢◌, refl, ap, ◌∙◌, arith, false, none, some, [], ◌∷◌, ◌++◌, any,
  nat_beq,
}
use hyperd.Prelude.Text.{Text}
use hyperd.Prelude.Int.{pos}
use hyperd.Prelude.Decimal.{
  itoa, parse_digits, IsDigits, itoa-digits, itoa-IsDigits, itoa-IsNonempty,
}
use hyperd.Names.{cut, digits, value, positive, unsigned, parse_int, limit}

pub cut-append :
    (sep : ℕ) (s t : Text)
    → any (λ c. nat_beq c sep) s ≡ false
    → cut sep (s ++ sep ∷ t) ≡ (s, some t)
cut-append sep [] t h = ground arith
cut-append sep (c ∷ s) t h = ground (arith, h, cut-append sep s t)

pub cut-without : (sep : ℕ) (s : Text) → any (λ c. nat_beq c sep) s ≡ false → cut sep s ≡ (s, none)
cut-without sep [] h = refl
cut-without sep (c ∷ s) h = ground (arith, h, cut-without sep s)

digits-parse_digits : (s : Text) (acc : ℕ) → IsDigits s → digits 10 acc s ≡ parse_digits acc s
unfolding parse_digits IsDigits
digits-parse_digits [] acc h = refl
digits-parse_digits (c ∷ cs) acc h =
    ground (arith, digits-parse_digits cs (acc * 10 + (c - b'0')) h.1, h.0)

pub digits-itoa : (n : ℕ) → digits 10 0 (itoa n) ≡ some n
digits-itoa n = digits-parse_digits (itoa n) 0 (itoa-IsDigits n) ∙ itoa-digits n

pub unsigned-cons : (s : Text) (n : ℕ) → s ≢ [] → digits 10 0 s ≡ some n → unsigned 10 s ≡ some n
unsigned-cons [] n h e = absurd (h refl)
unsigned-cons (c ∷ cs) n h e = e

pub parse_int-digits : (s : Text) → IsDigits s → parse_int 10 s ≡ positive (unsigned 10 s)
unfolding parse_int IsDigits
parse_int-digits [] h = refl
parse_int-digits (c ∷ cs) h = ground (arith, h.0)

-- A decimal number below 2 ^ 63 is read back.
pub parse_int-itoa : (n : ℕ) → n < limit → parse_int 10 (itoa n) ≡ value (pos n)
parse_int-itoa n h =
    parse_int-digits (itoa n) (itoa-IsDigits n)
    ∙ (ap positive (unsigned-cons (itoa n) n (itoa-IsNonempty n) (digits-itoa n))
        ∙ ground (arith, h))
