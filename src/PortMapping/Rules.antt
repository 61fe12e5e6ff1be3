-- ===== src/PortMapping/Rules.antt =====
-- networking/portmapping/sandbox_portmapping.go: the commands that release the rules inside the
-- sandbox, against those that set them up; and the shape of the mappings that get rules.
use hyperd.Prelude.{
  ◌+◌, ◌≤◌, ◌≡◌, refl, ◌⊎◌, inl, inr, true, false, Option, none, some, List, [], ◌∷◌, arith, map,
  map-append, ok, Result-cases,
}
use hyperd.Prelude.Text.{Text, codes}
use hyperd.Prelude.Decimal.{parse_uint16-le, split_dash}
use hyperd.PortMapping.{
  PortRange, PortMapping, Args, settle, settle_range, new_port_range, new_port_mapping,
  generate_redirect_args, generate_iptables_args, redirects_for, in_sandbox_mappings,
}

-- The command with its action, the fourth word, turned into a deletion.
abbrev pub undo : Args → Args
undo (a ∷ b ∷ c ∷ d ∷ rest) = a ∷ b ∷ c ∷ codes "-D" ∷ rest
undo args = args

redirects_for-undo :
    (prefix : Text) (ms : List PortMapping) (rs : List Args)
    → redirects_for true prefix ms ≡ ok rs
    → redirects_for false prefix ms ≡ ok (map undo rs)
unfolding redirects_for generate_redirect_args
redirects_for-undo prefix [] rs h = ground arith
redirects_for-undo prefix (m ∷ ms) rs h = elim (Result-cases (settle m)) [
  | inl (m', e) ↦ elim (Result-cases (redirects_for true prefix ms)) [
    | inl (rest, f) ↦ ground (arith, redirects_for-undo prefix ms rest f)
    | inr (x, f) ↦ ground arith
  ]
  | inr (x, e) ↦ ground arith
]

-- Where the sandbox's rules can be set up, the commands that release them are the commands that
-- set them up, in the same order, each with its insertion turned into a deletion.
pub in_sandbox_mappings-undo :
    (prefixes : List Text) (ms : List PortMapping) (rs : List Args)
    → in_sandbox_mappings true prefixes ms ≡ ok rs
    → in_sandbox_mappings false prefixes ms ≡ ok (map undo rs)
unfolding in_sandbox_mappings
in_sandbox_mappings-undo [] ms rs h = ground arith
in_sandbox_mappings-undo (prefix ∷ prefixes) ms rs h =
    elim (Result-cases (redirects_for true prefix ms)) [
      | inl (here, e) ↦ elim (Result-cases (in_sandbox_mappings true prefixes ms)) [
        | inl (rest, f) ↦ ground (
          arith,
          redirects_for-undo prefix ms here e,
          in_sandbox_mappings-undo prefixes ms rest f,
          map-append undo here rest,
        )
        | inr (x, f) ↦ ground arith
      ]
      | inr (x, e) ↦ ground arith
    ]

-- A mapping that rules are generated for.
pub record IsSettled (m : PortMapping) : Type 0 where
  pub from_ordered : m.from_ports.begin ≤ m.from_ports.end
  pub to_ordered : m.to_ports.begin ≤ m.to_ports.end
  pub matched :
      (m.from_ports.end ≡ m.from_ports.begin)
      ⊎ (m.from_ports.end + m.to_ports.begin ≡ m.to_ports.end + m.from_ports.begin)

settle-IsSettled : (m m' : PortMapping) → settle m ≡ ok m' → IsSettled m'
unfolding settle settle_range
settle-IsSettled m m' h = ground arith

new_port_range-of_split :
    (s first : Text) (second : Option Text) (r : PortRange)
    → split_dash s ≡ (first, second)
    → new_port_range s ≡ ok r
    → (r.begin ≤ 65535) × (r.end ≤ 65535)
unfolding new_port_range
new_port_range-of_split s first none r e h = ground (arith, parse_uint16-le first r.begin)
new_port_range-of_split s first (some rest) r e h =
    ground (arith, parse_uint16-le first r.begin, parse_uint16-le rest r.end)

new_port_range-le :
    (s : Text) (r : PortRange) → new_port_range s ≡ ok r → (r.begin ≤ 65535) × (r.end ≤ 65535)
new_port_range-le s r h = new_port_range-of_split s (split_dash s).0 (split_dash s).1 r refl h

new_port_mapping-le :
    (proto from to : Text) (m : PortMapping)
    → new_port_mapping proto from to ≡ ok m
    → (m.from_ports.end ≤ 65535)
      × (m.to_ports.end ≤ 65535)
      × (m.from_ports.begin ≤ 65535)
      × (m.to_ports.begin ≤ 65535)
unfolding new_port_mapping
new_port_mapping-le proto from to m h = elim (Result-cases (new_port_range from)) [
  | inl (f, e) ↦ elim (Result-cases (new_port_range to)) [
    | inl (g, e') ↦ ground (arith, new_port_range-le from f e, new_port_range-le to g e')
    | inr (x, e') ↦ absurd (ground arith)
  ]
  | inr (x, e) ↦ absurd (ground arith)
]

settle-le :
    (m m' : PortMapping)
    → settle m ≡ ok m'
    → m.from_ports.end ≤ 65535
    → m.to_ports.end ≤ 65535
    → m.from_ports.begin ≤ 65535
    → m.to_ports.begin ≤ 65535
    → (m'.from_ports.end ≤ 65535) × (m'.to_ports.end ≤ 65535)
unfolding settle settle_range
settle-le m m' h a b c d = ground arith

generate_iptables_args-settle :
    (ip : Text) (m m' : PortMapping) (nat filter : Args)
    → generate_iptables_args ip m ≡ ok (m', nat, filter)
    → settle m ≡ ok m'
unfolding generate_iptables_args
generate_iptables_args-settle ip m m' nat filter h = elim (Result-cases (settle m)) [
  | inl (n, e) ↦ ground arith
  | inr (x, e) ↦ absurd (ground arith)
]

-- Rules are made for whole mappings only: if the arguments of the host's rules are generated for a
-- mapping that was read from three texts, then its ranges run upwards and end within the ports,
-- and it maps one host port, or a range of host ports to a range of the same length.
pub generate_iptables_args-IsSettled :
    (proto from to ip : Text) (m m' : PortMapping) (nat filter : Args)
    → new_port_mapping proto from to ≡ ok m
    → generate_iptables_args ip m ≡ ok (m', nat, filter)
    → IsSettled m' × (m'.from_ports.end ≤ 65535) × (m'.to_ports.end ≤ 65535)
generate_iptables_args-IsSettled proto from to ip m m' nat filter h g =
    let s = generate_iptables_args-settle ip m m' nat filter g in
    let (a, b, c, d) = new_port_mapping-le proto from to m h in
    let (x, y) = settle-le m m' s a b c d in (settle-IsSettled m m' s, x, y)
