-- ===== src/Interfaces/Ids.antt =====
-- daemon/pod/provision.go: initResources gives every interface an id of its own.
use hyperd.Prelude.{
  ℕ, ◌+◌, ◌≡◌, Bool, false, none, some, List, [], ◌∷◌, Dict, lookup, insert, ltb, if◌then◌else◌,
}
use hyperd.Prelude.Text.{Text, text_eq}
use hyperd.Prelude.Decimal.{parse_digits}
use hyperd.Interfaces.{Interface}

-- Is the id the decimal of a number above the bound?
abbrev above : ℕ → Text → Bool
above idx k = elim (parse_digits 0 k) [ none ↦ false | some n ↦ ltb idx n ]

abbrev count_above : ℕ → Dict Text Interface → ℕ
count_above idx [] = 0
count_above idx ((k, i) ∷ m) = if above idx k then count_above idx m + 1 else count_above idx m

-- The interfaces of the second map are those of the first, under the same ids, and `i` with an id
-- of its own for each of the list.
abbrev pub Numbered : List Interface → Dict Text Interface → Dict Text Interface → Type 0
Numbered [] m m' = m ≡ m'
Numbered (i ∷ is) m m' =
    (id : Text) × (lookup id m ≡ none) × Numbered is (insert id (record i { id = id }) m) m'
