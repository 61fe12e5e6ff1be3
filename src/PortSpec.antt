-- ===== src/PortSpec.antt =====
-- types/utils.go: the port mappings of a pod's spec, read, written and merged. Ports are texts in
-- a spec and ranges of numbers once they are read.
pub mod RoundTrip
pub mod Merge
use hyperd.Prelude.{
  ℕ, ◌+◌, ◌-◌, ◌≤◌, Bool, true, false, not, ◌&&◌, ◌||◌, Option, none, some, List, [], ◌∷◌, ◌++◌,
  ◌==◌, if◌then◌else◌, ltb, leb, nat_beq, Result, ok, err, ◌>>=◌, map,
}
use hyperd.Prelude.Text.{Text, codes, text_eq}
use hyperd.Prelude.Decimal.{itoa, parse_uint16, split_dash}

-- _PortRange
pub record PortRange : Type 0 where
  pub start : ℕ
  pub end : ℕ

pub data Error : Type 0 where
  not_a_port empty_range unknown_protocol range_mismatch : Error

abbrev or_error {ℓ} : {A : Type ℓ} → Option A → Error → Result Error A
or_error none e = err e
or_error (some a) e = ok a

-- readPortRange
unfoldable pub read_port_range : Text → Result Error PortRange
read_port_range [] = ok (record { start = 1025; end = 65535 })
read_port_range (c ∷ cs) =
    let (first, second) = split_dash (c ∷ cs) in
    elim second [
      | none ↦ do
        start ← or_error (parse_uint16 (c ∷ cs)) not_a_port
        ok (record { start = start; end = start })
      | some rest ↦ do
        start ← or_error (parse_uint16 first) not_a_port
        end ← or_error (parse_uint16 rest) not_a_port
        if ltb end start then err empty_range else ok (record { start = start; end = end })
    ]

unfoldable pub is_range : PortRange → Bool
is_range pr = not (nat_beq pr.start pr.end)

-- The end lies at or behind the start wherever the code builds a range.
unfoldable pub count : PortRange → ℕ
count pr = pr.end - pr.start + 1

-- (pr *_PortRange) String
unfoldable pub range_string : PortRange → Text
unfolding is_range
range_string pr = if is_range pr then itoa pr.start ++ b'-' ∷ itoa pr.end else itoa pr.start

-- PortMapping of the spec
pub record PortMapping : Type 0 where
  pub container_port : Text
  pub host_port : Text
  pub protocol : Text

pub data Protocol : Type 0 where
  tcp udp : Protocol

-- _PortMapping; its protocol is only ever "tcp" or "udp".
pub record Mapping : Type 0 where
  pub host : PortRange
  pub container : PortRange
  pub protocol : Protocol

unfoldable pub protocol_name : Protocol → Text
protocol_name tcp = codes "tcp"
protocol_name udp = codes "udp"

-- The first test of readPortMapping
unfoldable pub read_protocol : Text → Result Error Protocol
read_protocol s =
    if s == codes "udp"
    then ok udp
    else if not (s == codes "tcp") && not (s == [])
    then err unknown_protocol
    else ok tcp

-- readPortMapping
unfoldable pub read_port_mapping : PortMapping → Result Error Mapping
unfolding read_protocol is_range count
read_port_mapping pm = do
  proto ← read_protocol pm.protocol
  h ← read_port_range pm.host_port
  c ← read_port_range pm.container_port
  if is_range c && not (nat_beq (count c) (count h))
      then err range_mismatch
      else ok (record { host = h; container = c; protocol = proto })

-- (pm *_PortMapping) toSpec
unfoldable pub to_spec : Mapping → PortMapping
unfolding range_string protocol_name
to_spec pm = record {
  container_port = range_string pm.container;
  host_port = range_string pm.host;
  protocol = protocol_name pm.protocol;
}

-- (pm *PortMapping) Formalize
unfoldable pub formalize : PortMapping → Result Error PortMapping
unfolding read_port_mapping to_spec
formalize pm = do f ← read_port_mapping pm; ok (to_spec f)

-- EqualTo, of two mappings that are there
unfoldable pub equal_to : PortMapping → PortMapping → Bool
equal_to pm other =
    pm.protocol == other.protocol
    && (pm.container_port == other.container_port && pm.host_port == other.container_port)

-- SameDestWith, of two mappings that are there
unfoldable pub same_dest_with : PortMapping → PortMapping → Bool
same_dest_with pm other = pm.protocol == other.protocol && pm.container_port == other.container_port

-- A port of a container's own spec, and the container's list of them.
pub record ContainerPort : Type 0 where
  pub host_port : ℕ
  pub container_port : ℕ
  pub protocol : Text

-- strings.ToLower over ASCII
abbrev pub to_lower : Text → Text
to_lower [] = []
to_lower (c ∷ cs) = (if leb b'A' c && leb c b'Z' then c + 32 else c) ∷ to_lower cs

-- ToPodPortmappings: one port, the protocol in lower case as `proto`
unfoldable pub to_pod_port : ContainerPort → Text → Result Error PortMapping
to_pod_port pc proto =
    if proto == []
    then ok (record {
      host_port = itoa pc.host_port;
      container_port = itoa pc.container_port;
      protocol = codes "tcp";
    })
    else if not (proto == codes "tcp") || not (proto == codes "udp")
    then err unknown_protocol
    else ok (record {
      host_port = itoa pc.host_port;
      container_port = itoa pc.container_port;
      protocol = proto;
    })

abbrev prepend : PortMapping → List PortMapping × Option Error → List PortMapping × Option Error
prepend p (ps, e) = (p ∷ ps, e)

-- ToPodPortmappings: the result and the error
unfoldable pub to_pod_port_mappings : Bool → List ContainerPort → List PortMapping × Option Error
unfolding to_pod_port
to_pod_port_mappings ignore_error [] = ([], none)
to_pod_port_mappings ignore_error (pc ∷ pcs) =
    let rest = to_pod_port_mappings ignore_error pcs in
    elim (to_pod_port pc (to_lower pc.protocol)) [
      | ok p ↦ prepend p rest
      | err e ↦ if ignore_error then rest else ([], some e)
    ]

-- migrateContainerPorts: the ports of each container, and the pod's mappings so far. The ports
-- left with the containers come back too, as does an error, at which the loop stops.
unfoldable pub migrate_container_ports :
    List (List ContainerPort)
    → List PortMapping
    → List (List ContainerPort) × List PortMapping × Option Error
unfolding to_pod_port_mappings
migrate_container_ports [] pms = ([], pms, none)
migrate_container_ports ([] ∷ cs) pms =
    let (cs', pms', e) = migrate_container_ports cs pms in ([] ∷ cs', pms', e)
migrate_container_ports ((p ∷ ps) ∷ cs) pms =
    let (new, e) = to_pod_port_mappings false (p ∷ ps) in
    let rest = migrate_container_ports cs (pms ++ new) in
    elim e [ some x ↦ ((p ∷ ps) ∷ cs, pms, some x) | none ↦ ([] ∷ rest.0, rest.1, rest.2) ]

-- MergePortmappings: the first loop, which reads all mappings
unfoldable pub read_all : List PortMapping → Result Error (List Mapping)
unfolding read_port_mapping
read_all [] = ok []
read_all (pm ∷ pms) = do port ← read_port_mapping pm; rest ← read_all pms; ok (port ∷ rest)

abbrev pub has_protocol : Protocol → Mapping → Bool
has_protocol tcp m = elim m.protocol [ tcp ↦ true | udp ↦ false ]
has_protocol udp m = elim m.protocol [ tcp ↦ false | udp ↦ true ]

unfoldable pub of_protocol : Protocol → List Mapping → List PortMapping
unfolding to_spec
of_protocol p [] = []
of_protocol p (m ∷ ms) =
    let rest = of_protocol p ms in if has_protocol p m then to_spec m ∷ rest else rest

-- MergePortmappings, once the ports of the containers have been taken over
unfoldable pub merge_read : List PortMapping → Result Error (List PortMapping)
unfolding read_all of_protocol
merge_read pms = do ports ← read_all pms; ok (of_protocol tcp ports ++ of_protocol udp ports)

-- MergePortmappings
unfoldable pub merge_port_mappings :
    List (List ContainerPort) → List PortMapping → Result Error (List PortMapping)
unfolding migrate_container_ports merge_read
merge_port_mappings containers pms =
    let (left, all, e) = migrate_container_ports containers pms in
    elim e [ some x ↦ err x | none ↦ merge_read all ]
