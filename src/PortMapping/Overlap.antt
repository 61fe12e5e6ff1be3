-- ===== src/PortMapping/Overlap.antt =====
-- networking/portmapping/iptables/iptables_linux.go: PortMapUsed answers whether a rule of the
-- protocol has one of the ports.
use hyperd.Prelude.{ℕ, ◌≤◌, ◌≡◌, ◌⊎◌, some, List, [], ◌∷◌}
use hyperd.Prelude.Text.{Text, text_eq}
use hyperd.Prelude.Decimal.{parse_digits}
use hyperd.PortMapping.Used.{Submatch, find_submatch, upper}

-- The rule is one of the protocol, and its range of ports has `x`.
abbrev pub Covers : Text → ℕ → Text → Type 0
Covers proto x rule =
    (m : Submatch) × (p1 : ℕ) × (p2 : ℕ) × (find_submatch rule ≡ some m)
    × (m.proto ≡ proto)
    × (parse_digits 0 m.first ≡ some p1)
    × (upper p1 m.last ≡ some p2)
    × (p1 ≤ x)
    × (x ≤ p2)

-- The range of a rule begins before it ends.
abbrev pub IsOrdered : Text → Type 0
IsOrdered rule =
    (m : Submatch) (p1 p2 : ℕ)
    → find_submatch rule ≡ some m
    → parse_digits 0 m.first ≡ some p1
    → upper p1 m.last ≡ some p2
    → p1 ≤ p2

abbrev pub AnyOf : (Text → Type 0) → List Text → Type 0
AnyOf P [] = ⊥
AnyOf P (r ∷ rs) = P r ⊎ AnyOf P rs
