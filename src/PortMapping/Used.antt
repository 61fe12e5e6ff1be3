-- ===== src/PortMapping/Used.antt =====
-- networking/portmapping/iptables/iptables_linux.go: PortMapUsed, on the output of `iptables -S`. The
-- regular expression `.* -p ([cdtpu]{3}) .* --dport ([0-9]{1,5})(:([0-9]{1,5}))?` is matched as Go
-- matches it: each `.*` takes as much as it can.
use hyperd.Prelude.{
  ℕ, suc, zero, Bool, false, ◌&&◌, ◌||◌, Option, none, some, [], ◌∷◌, any, leb, ltb, nat_beq, ◌==◌,
  if◌then◌else◌,
}
use hyperd.Prelude.Text.{Text, text_eq, codes}
use hyperd.Prelude.Decimal.{is_digit, parse_digits}
use hyperd.Names.{split}

-- The rest of a text behind a prefix
abbrev pub after : Text → Text → Option Text
after [] s = some s
after (p ∷ ps) [] = none
after (p ∷ ps) (c ∷ cs) = if nat_beq p c then after ps cs else none

-- `[0-9]{1,5}`: as many digits as there are, at most `n`, and the rest
abbrev pub cons_digit : ℕ → Text × Text → Text × Text
cons_digit c (ds, rest) = (c ∷ ds, rest)

abbrev pub take_digits : ℕ → Text → Text × Text
take_digits zero s = ([], s)
take_digits (suc n) [] = ([], [])
take_digits (suc n) (c ∷ cs) =
    let rest = take_digits n cs in if is_digit c then cons_digit c rest else ([], c ∷ cs)

abbrev pub nonempty : Text × Text → Option (Text × Text)
nonempty ([], rest) = none
nonempty (d ∷ ds, rest) = some (d ∷ ds, rest)

-- `(:([0-9]{1,5}))?`
abbrev pub upper_port : Text → Option Text
upper_port [] = none
upper_port (c ∷ cs) =
    if nat_beq c b':'
    then elim (nonempty (take_digits 5 cs)) [ none ↦ none | some p ↦ some p.0 ]
    else none

-- ` --dport ([0-9]{1,5})(:([0-9]{1,5}))?` at the beginning of a text
unfoldable pub dport_here : Text → Option (Text × Option Text)
dport_here s = elim (after (codes " --dport ") s) [
  | none ↦ none
  | some rest ↦ elim (nonempty (take_digits 5 rest)) [
    | none ↦ none
    | some p ↦ some (p.0, upper_port p.1)
  ]
]

abbrev pub or_else {ℓ} : {A : Type ℓ} → Option A → Option A → Option A
or_else none b = b
or_else (some a) b = some a

-- `.*` before it
unfoldable pub dport : Text → Option (Text × Option Text)
unfolding dport_here
dport [] = dport_here []
dport (c ∷ cs) = or_else (dport cs) (dport_here (c ∷ cs))

-- `[cdtpu]`
abbrev pub is_proto_char : ℕ → Bool
is_proto_char c =
    nat_beq c b'c' || (nat_beq c b'd' || (nat_beq c b't' || (nat_beq c b'p' || nat_beq c b'u')))

pub record Submatch : Type 0 where
  pub proto : Text
  pub first : Text
  pub last : Option Text

abbrev pub submatch : Text → Option (Text × Option Text) → Option Submatch
submatch proto none = none
submatch proto (some (first, last)) = some (record { proto = proto; first = first; last = last })

abbrev pub proto_then : Text → Option Submatch
proto_then (a ∷ b ∷ c ∷ space ∷ rest) =
    if is_proto_char a && (is_proto_char b && (is_proto_char c && nat_beq space b' '))
    then submatch (a ∷ b ∷ c ∷ []) (dport rest)
    else none
proto_then _ = none

unfoldable pub rule_here : Text → Option Submatch
unfolding dport
rule_here s = elim (after (codes " -p ") s) [ none ↦ none | some rest ↦ proto_then rest ]

unfoldable pub find_submatch : Text → Option Submatch
unfolding rule_here
find_submatch [] = rule_here []
find_submatch (c ∷ cs) = or_else (find_submatch cs) (rule_here (c ∷ cs))

-- strconv.ParseInt of a text of at most five digits
abbrev pub upper : ℕ → Option Text → Option ℕ
upper p1 none = some p1
upper p1 (some t) = parse_digits 0 t

abbrev pub overlaps : ℕ → ℕ → ℕ → ℕ → Bool
overlaps begin end p1 p2 =
    (leb p1 begin && leb begin p2) || ((leb p1 end && leb end p2) || (ltb begin p1 && ltb p2 end))

abbrev pub range_used : ℕ → ℕ → Option ℕ → Option ℕ → Bool
range_used begin end (some p1) (some p2) = overlaps begin end p1 p2
range_used begin end (some p1) none = false
range_used begin end none p2 = false

abbrev pub upper_of : Option ℕ → Option Text → Option ℕ
upper_of none last = none
upper_of (some p1) last = upper p1 last

abbrev pub submatch_used : Text → ℕ → ℕ → Option Submatch → Bool
submatch_used proto begin end none = false
submatch_used proto begin end (some m) =
    (m.proto == proto)
    && range_used begin end (parse_digits 0 m.first) (upper_of (parse_digits 0 m.first) m.last)

-- PortMapUsed, with the output of `iptables -t nat -S` for the chain
unfoldable pub port_map_used : Text → Text → ℕ → ℕ → Bool
unfolding find_submatch
port_map_used output proto begin end =
    any (λ rule. submatch_used proto begin end (find_submatch rule)) (split 10 output)
