-- ===== src/PortMapping.antt =====
-- networking/portmapping: the table of host ports that are in use (portmapper/portmapper.go), the
-- iptables rules for a mapping (host_portmapping_linux.go, sandbox_portmapping.go) and the two
-- entry points (portmapping_interfaces.go). What the iptables command does is a parameter: a type
-- `W` of its states and the answers of the calls; the tables are the code's own.
pub mod Setup
pub mod Table
pub mod Rules
pub mod Used
pub mod Overlap
pub mod Leak
use hyperd.Prelude.{
  ℕ, zero, suc, ◌+◌, ◌-◌, ◌≤◌, Bool, true, false, not, ◌&&◌, ◌||◌, Option, none, some, List, [],
  ◌∷◌, ◌++◌, ◌==◌, nat_eq, if◌then◌else◌, ltb, leb, nat_beq, Result, ok, err, ◌>>=◌, Dict, lookup,
  insert, delete,
}
use hyperd.Prelude.Text.{Text, codes, text_eq}
use hyperd.Prelude.Decimal.{itoa, parse_uint16, split_dash}
use hyperd.PortSpec.{to_lower}

-- portmapper.go: PortMap, PortSet, PortMapper
pub record PortMap : Type 0 where
  pub container_ip : Text
  pub container_port : ℕ

abbrev pub PortSet : Type 0
PortSet = Dict ℕ PortMap

pub record PortMapper : Type 0 where
  pub tcp_map : PortSet
  pub udp_map : PortSet

pub data Error : Type 0 where
  port_used : ℕ → Text → ℕ → Error
  host_port_used unsupported_protocol not_a_port invalid_range range_mismatch : Error
  raw_failed : Error

-- strings.EqualFold(protocol, "udp")
unfoldable pub is_udp : Text → Bool
is_udp s = to_lower s == codes "udp"

-- The port set of a protocol, and the mapper with it replaced.
unfoldable pub port_set : Text → PortMapper → PortSet
unfolding is_udp
port_set protocol p = if is_udp protocol then p.udp_map else p.tcp_map

unfoldable pub with_port_set : Text → PortSet → PortMapper → PortMapper
unfolding is_udp
with_port_set protocol s p =
    if is_udp protocol then record p { udp_map = s } else record p { tcp_map = s }

unfoldable pub allocate_map : Text → ℕ → Text → ℕ → PortMapper → PortMapper × Option Error
unfolding port_set with_port_set
allocate_map protocol host_port ip container_port p =
    elim (lookup host_port (port_set protocol p)) [
      | some e ↦ (p, some (port_used host_port e.container_ip e.container_port))
      | none ↦
          let new : PortMap = record { container_ip = ip; container_port = container_port } in
          (with_port_set protocol (insert host_port new (port_set protocol p)) p, none)
    ]

unfoldable pub release_map : Text → ℕ → PortMapper → PortMapper
unfolding port_set with_port_set
release_map protocol host_port p = with_port_set protocol (delete host_port (port_set protocol p)) p

-- host_portmapping_linux.go: PortRange, PortMapping
pub record PortRange : Type 0 where
  pub begin : ℕ
  pub end : ℕ

pub record PortMapping : Type 0 where
  pub protocol : Text
  pub to_ports : PortRange
  pub from_ports : PortRange

abbrev port {ℓ} : {A : Type ℓ} → Option ℕ → (ℕ → Result Error A) → Result Error A
port none k = err not_a_port
port (some n) k = k n

unfoldable pub new_port_range : Text → Result Error PortRange
new_port_range r =
    let (first, second) = split_dash r in
    port (parse_uint16 first) λ b. elim second [
      | none ↦ ok (record { begin = b; end = b })
      | some rest ↦ port (parse_uint16 rest) λ e. ok (record { begin = b; end = e })
    ]

unfoldable pub new_port_mapping : Text → Text → Text → Result Error PortMapping
unfolding new_port_range
new_port_mapping proto from to =
    let p = if proto == [] then codes "tcp" else proto in
    if not (p == codes "tcp") && not (p == codes "udp") then err unsupported_protocol else do
      f ← new_port_range from
      t ← new_port_range to
      ok (record { protocol = p; to_ports = t; from_ports = f })

-- The part that generateIptablesArgs and generateRedirectArgs do to a range: an end of zero means
-- the single port, and is set to it; an end before the start is refused.
unfoldable pub settle_range : PortRange → Result Error PortRange
settle_range r =
    if nat_beq r.end 0 || nat_beq r.end r.begin
    then ok (record r { end = r.begin })
    else if ltb r.begin r.end
    then ok r
    else err invalid_range

-- A range that is settled, with the separator of the place where it is printed.
unfoldable pub print_range : ℕ → PortRange → Text
print_range sep r = if nat_beq r.end r.begin then itoa r.begin else itoa r.begin ++ sep ∷ itoa r.end

unfoldable pub proto_name : Text → Text
unfolding is_udp
proto_name protocol = if is_udp protocol then codes "udp" else codes "tcp"

-- The mapping as the argument generators leave it: both ranges settled, and the lengths 1:N or
-- N:N.
unfoldable pub settle : PortMapping → Result Error PortMapping
unfolding settle_range
settle m = do
  f ← settle_range m.from_ports
  t ← settle_range m.to_ports
  if not (nat_beq (f.end - f.begin) 0) && not (nat_beq (f.end - f.begin) (t.end - t.begin))
      then err range_mismatch
      else ok (record m { from_ports = f; to_ports = t })

-- net.JoinHostPort for an address without a colon
abbrev join_host_port : Text → Text → Text
join_host_port ip p = ip ++ b':' ∷ p

abbrev pub Args : Type 0
Args = List Text

abbrev dnat_args : Text → PortMapping → Args
dnat_args ip m =
    codes "-p"
    ∷ proto_name m.protocol
    ∷ codes "-m"
    ∷ proto_name m.protocol
    ∷ codes "--dport"
    ∷ print_range b':' m.from_ports
    ∷ codes "-j"
    ∷ codes "DNAT"
    ∷ codes "--to-destination"
    ∷ join_host_port ip (print_range b'-' m.to_ports)
    ∷ []

abbrev accept_args : Text → PortMapping → Args
accept_args ip m =
    codes "-d"
    ∷ ip
    ∷ codes "-p"
    ∷ proto_name m.protocol
    ∷ codes "-m"
    ∷ proto_name m.protocol
    ∷ codes "--dport"
    ∷ print_range b':' m.to_ports
    ∷ codes "-j"
    ∷ codes "ACCEPT"
    ∷ []

-- generateIptablesArgs: the mapping as it leaves it, the NAT and the filter arguments
unfoldable pub generate_iptables_args :
    Text → PortMapping → Result Error (PortMapping × Args × Args)
unfolding settle
generate_iptables_args ip m = do m' ← settle m; ok (m', dnat_args ip m', accept_args ip m')

abbrev redirect_rule : Text → Text → PortMapping → Args
redirect_rule action prefix m =
    codes "iptables"
    ∷ codes "-t"
    ∷ codes "nat"
    ∷ action
    ∷ codes "hyperstart-PREROUTING"
    ∷ codes "-s"
    ∷ prefix
    ∷ codes "-p"
    ∷ proto_name m.protocol
    ∷ codes "-m"
    ∷ proto_name m.protocol
    ∷ codes "--dport"
    ∷ print_range b':' m.from_ports
    ∷ codes "-j"
    ∷ codes "REDIRECT"
    ∷ codes "--to-port"
    ∷ print_range b'-' m.to_ports
    ∷ []

abbrev input_rule : Text → Text → PortMapping → Args
input_rule action prefix m =
    codes "iptables"
    ∷ codes "-t"
    ∷ codes "filter"
    ∷ action
    ∷ codes "hyperstart-INPUT"
    ∷ codes "-s"
    ∷ prefix
    ∷ codes "-p"
    ∷ proto_name m.protocol
    ∷ codes "-m"
    ∷ proto_name m.protocol
    ∷ codes "--dport"
    ∷ print_range b':' m.from_ports
    ∷ codes "-j"
    ∷ codes "ACCEPT"
    ∷ []

-- sandbox_portmapping.go: generateRedirectArgs
unfoldable pub generate_redirect_args : Text → PortMapping → Bool → Result Error (Args × Args)
unfolding settle
generate_redirect_args prefix m inserting = do
  m' ← settle m
  let action = if inserting then codes "-I" else codes "-D"
  ok (redirect_rule action prefix m', input_rule action prefix m')

-- The inner loop of setupInSandboxMappings and releaseInSandboxMappings
unfoldable pub redirects_for : Bool → Text → List PortMapping → Result Error (List Args)
unfolding generate_redirect_args
redirects_for inserting prefix [] = ok []
redirects_for inserting prefix (m ∷ ms) = do
  rules ← generate_redirect_args prefix m inserting
  rest ← redirects_for inserting prefix ms
  ok (rules.0 ∷ rules.1 ∷ rest)

-- setupInSandboxMappings (`true`) and releaseInSandboxMappings (`false`)
unfoldable pub in_sandbox_mappings : Bool → List Text → List PortMapping → Result Error (List Args)
unfolding redirects_for
in_sandbox_mappings inserting [] ms = ok []
in_sandbox_mappings inserting (prefix ∷ prefixes) ms = do
  here ← redirects_for inserting prefix ms
  rest ← in_sandbox_mappings inserting prefixes ms
  ok (here ++ rest)
