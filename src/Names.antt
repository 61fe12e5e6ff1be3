-- ===== src/Names.antt =====
-- utils/names.go and utils/utils.go: names of hosts and images, permissions and user numbers, as
-- texts. A regular expression is the test that it stands for; strconv.ParseInt is modelled as far
-- as an int of 64 bits goes.
pub mod Images
pub mod Permissions
pub mod Reading
use hyperd.Prelude.{
  ℕ, suc, zero, ◌+◌, ◌-◌, ◌*◌, Bool, true, false, not, ◌&&◌, ◌||◌, Option, none, some, List, [],
  ◌∷◌, ◌++◌, length, ltb, leb, nat_beq, ◌==◌, if◌then◌else◌,
}
use hyperd.Prelude.Text.{Text, text_eq, codes}
use hyperd.Prelude.Int.{ℤ, pos, negsuc}

abbrev pub is_lower_alnum : ℕ → Bool
is_lower_alnum c = (leb b'a' c && leb c b'z') || (leb b'0' c && leb c b'9')

-- `([-a-z0-9]*[a-z0-9])?`
abbrev pub label_rest : Text → Bool
label_rest [] = true
label_rest (c ∷ []) = is_lower_alnum c
label_rest (c ∷ d ∷ cs) = (is_lower_alnum c || nat_beq c b'-') && label_rest (d ∷ cs)

abbrev pub label_pattern : Text → Bool
label_pattern [] = false
label_pattern (c ∷ cs) = is_lower_alnum c && label_rest cs

-- IsDNS1123Label, IsDNSLabel
unfoldable pub is_dns_label : Text → Bool
is_dns_label value = leb (length value) 63 && label_pattern value

-- strings.SplitN(s, sep, 2) for a separator of one byte: the part before the first, and the rest
abbrev pub cut_cons : ℕ → Text × Option Text → Text × Option Text
cut_cons c (first, rest) = (c ∷ first, rest)

abbrev pub cut : ℕ → Text → Text × Option Text
cut sep [] = ([], none)
cut sep (c ∷ cs) = let rest = cut sep cs in if nat_beq c sep then ([], some cs) else cut_cons c rest

-- `i := strings.LastIndex(s, sep)`: s[:i] and s[i+1:], if there is one
abbrev pub cut_last_cons : ℕ → ℕ → Option (Text × Text) → Text → Option (Text × Text)
cut_last_cons sep c (some (front, back)) cs = some (c ∷ front, back)
cut_last_cons sep c none cs = if nat_beq c sep then some ([], cs) else none

abbrev pub cut_last : ℕ → Text → Option (Text × Text)
cut_last sep [] = none
cut_last sep (c ∷ cs) = cut_last_cons sep c (cut_last sep cs) cs

-- strings.Split for a separator of one byte
abbrev pub split_cons : ℕ → List Text → List Text
split_cons c [] = (c ∷ []) ∷ []
split_cons c (s ∷ ss) = (c ∷ s) ∷ ss

abbrev pub split : ℕ → Text → List Text
split sep [] = [] ∷ []
split sep (c ∷ cs) =
    let rest = split sep cs in if nat_beq c sep then [] ∷ rest else split_cons c rest

abbrev or_empty : Option Text → Text
or_empty none = []
or_empty (some t) = t

-- ParseImageRepoTag: the repository, the name and the tag
unfoldable pub parse_image_repo_tag : Text → Text × Text × Text
parse_image_repo_tag image =
    let (all, tag) = cut b':' image in
    elim (cut_last b'/' all) [ some p ↦ (p.0, p.1, or_empty tag) | none ↦ ([], all, or_empty tag) ]

-- The value of a digit, in either case.
abbrev pub digit : ℕ → ℕ
digit c =
    if leb b'0' c && leb c b'9'
    then c - b'0'
    else if leb b'a' c && leb c b'z'
    then c - b'a' + 10
    else if leb b'A' c && leb c b'Z'
    then c - b'A' + 10
    else 99

abbrev pub digits : ℕ → ℕ → Text → Option ℕ
digits base acc [] = some acc
digits base acc (c ∷ cs) =
    let rest = digits base (acc * base + digit c) cs in if ltb (digit c) base then rest else none

-- What strconv.ParseInt returns: a value, a syntax error, or a range error with the nearest value.
pub data Parsed : Type 0 where
  value out_of_range : ℤ → Parsed
  syntax : Parsed

abbrev pub limit : ℕ
limit = 9223372036854775808

abbrev negated : ℕ → ℤ
negated zero = pos 0
negated (suc n) = negsuc n

abbrev pub unsigned : ℕ → Text → Option ℕ
unsigned base [] = none
unsigned base (c ∷ cs) = digits base 0 (c ∷ cs)

abbrev pub positive : Option ℕ → Parsed
positive none = syntax
positive (some n) = if ltb n limit then value (pos n) else out_of_range (pos (limit - 1))

abbrev negative : Option ℕ → Parsed
negative none = syntax
negative (some n) = if leb n limit then value (negated n) else out_of_range (negated limit)

unfoldable pub parse_int : ℕ → Text → Parsed
parse_int base [] = syntax
parse_int base (c ∷ cs) =
    if nat_beq c b'-'
    then negative (unsigned base cs)
    else if nat_beq c b'+'
    then positive (unsigned base cs)
    else positive (unsigned base (c ∷ cs))

-- `if err == nil { res = int(i64) }`
abbrev pub if_value : Parsed → ℤ
if_value (value n) = n
if_value (out_of_range n) = pos 0
if_value syntax = pos 0

-- `res, _ = strconv.Atoi(str)`
abbrev pub atoi : Parsed → ℤ
atoi (value n) = n
atoi (out_of_range n) = n
atoi syntax = pos 0

-- `if res > 511 { res = 511 }`
abbrev pub at_most_511 : ℤ → ℤ
at_most_511 (pos n) = if ltb 511 n then pos 511 else pos n
at_most_511 (negsuc n) = negsuc n

abbrev prefixed : Text → ℤ
prefixed [] = pos 0
prefixed (c ∷ cs) = if nat_beq c b'x' then if_value (parse_int 16 cs) else if_value (parse_int 8 cs)

-- PermInt; indexing the empty text panics
unfoldable pub perm_int : Text → Option ℤ
unfolding parse_int
perm_int [] = none
perm_int (c ∷ cs) =
    some (at_most_511 (if nat_beq c b'0' then prefixed cs else atoi (parse_int 10 (c ∷ cs))))

-- UidInt
unfoldable pub uid_int : Text → ℤ
unfolding parse_int
uid_int str = if (str == []) || (str == codes "root") then pos 0 else if_value (parse_int 10 str)
