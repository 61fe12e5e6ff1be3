-- ===== src/PortSpec/RoundTrip.antt =====
-- types/utils.go: reading a port range or a port mapping back from what was written.
use hyperd.Prelude.{
  ℕ, ◌≤◌, ◌≡◌, refl, sym, ap, ◌∙◌, ◌≢◌, ◌⊎◌, inl, inr, false, Option, none, some, [], ◌∷◌, ◌++◌,
  arith, if◌then◌else◌, ltb, nat_beq, Result, ok, err, Bool-cases, ◌>>=◌,
}
use hyperd.Prelude.Text.{Text, text_eq}
use hyperd.Prelude.Decimal.{
  itoa, parse_uint16, split_dash, parse_uint16-itoa, parse_uint16-le, itoa-IsDigits,
  split_dash-digits, split_dash-dash, itoa-IsNonempty,
}
use hyperd.PortSpec.{
  PortRange, Error, PortMapping, Mapping, Protocol, tcp, udp, read_port_range, range_string,
  is_range, count, read_port_mapping, read_protocol, to_spec, protocol_name, or_error,
}

-- The ranges that `readPortRange` returns.
pub record IsRange (pr : PortRange) : Type 0 where
  pub ordered : pr.start ≤ pr.end
  pub bounded : pr.end ≤ 65535

split_range : Text → Text × Option Text → Result Error PortRange
split_range whole (first, none) = do
  start ← or_error (parse_uint16 whole) Error.not_a_port
  ok (record { start = start; end = start })
split_range whole (first, some rest) = do
  start ← or_error (parse_uint16 first) Error.not_a_port
  end ← or_error (parse_uint16 rest) Error.not_a_port
  if ltb end start then err Error.empty_range else ok (record { start = start; end = end })

read_port_range-split : (s : Text) → s ≢ [] → read_port_range s ≡ split_range s (split_dash s)
unfolding read_port_range split_range
read_port_range-split [] h = absurd (h refl)
read_port_range-split (c ∷ cs) h = ground arith

split_range-IsRange :
    (s : Text) (p : Text × Option Text) (pr : PortRange) → split_range s p ≡ ok pr → IsRange pr
unfolding split_range
split_range-IsRange s (first, none) pr h = ground (arith, parse_uint16-le s pr.start)
split_range-IsRange s (first, some rest) pr h =
    ground (arith, parse_uint16-le first pr.start, parse_uint16-le rest pr.end)

-- A range that is read has its end not before its start, and both are ports.
read_port_range-IsRange : (s : Text) (pr : PortRange) → read_port_range s ≡ ok pr → IsRange pr
unfolding read_port_range
read_port_range-IsRange [] pr h = ground arith
read_port_range-IsRange (c ∷ cs) pr h =
    split_range-IsRange (c ∷ cs) (split_dash (c ∷ cs)) pr
      (sym (read_port_range-split (c ∷ cs) (λ e. ground arith)) ∙ h)

append-ne-nil : (s : Text) (c : ℕ) (t : Text) → s ++ c ∷ t ≢ []
append-ne-nil [] c t e = ground arith
append-ne-nil (x ∷ s) c t e = ground arith

-- A range of ports is read back from what it prints, through the split at the dash.
split_range-pair :
    (pr : PortRange)
    → IsRange pr
    → split_range (itoa pr.start ++ b'-' ∷ itoa pr.end) (itoa pr.start, some (itoa pr.end)) ≡ ok pr
unfolding split_range
split_range-pair pr v =
    ground (arith, parse_uint16-itoa pr.start (omega arith), parse_uint16-itoa pr.end v.bounded)

split_range-single :
    (pr : PortRange)
    → IsRange pr
    → pr.start ≡ pr.end
    → split_range (itoa pr.start) (itoa pr.start, none) ≡ ok pr
unfolding split_range
split_range-single pr v e = ground (arith, parse_uint16-itoa pr.start (omega arith))

-- Every range whose end is not before its start nor above 65535 is read back from what it prints.
pub read_port_range-string :
    (pr : PortRange) → IsRange pr → read_port_range (range_string pr) ≡ ok pr
unfolding range_string is_range
read_port_range-string pr v = elim (Bool-cases (nat_beq pr.start pr.end)) [
  | inl e ↦
      rw (e, range_string)
        (read_port_range-split (itoa pr.start) (itoa-IsNonempty pr.start)
          ∙ ap (split_range (itoa pr.start)) (split_dash-digits _ (itoa-IsDigits pr.start))
          ∙ split_range-single pr v (ground arith))
  | inr e ↦
      rw (e, range_string)
        (read_port_range-split (itoa pr.start ++ b'-' ∷ itoa pr.end)
            (append-ne-nil (itoa pr.start) b'-' (itoa pr.end))
          ∙ ap (split_range (itoa pr.start ++ b'-' ∷ itoa pr.end))
              (split_dash-dash _ (itoa pr.end) (itoa-IsDigits pr.start))
          ∙ split_range-pair pr v)
]

-- The mappings that `readPortMapping` returns.
pub record IsMapping (m : Mapping) : Type 0 where
  pub host : IsRange m.host
  pub container : IsRange m.container
  pub matched : (is_range m.container ≡ false) ⊎ (count m.container ≡ count m.host)

read_protocol-name : (p : Protocol) → read_protocol (protocol_name p) ≡ ok p
unfolding read_protocol protocol_name
read_protocol-name tcp = refl
read_protocol-name udp = refl

-- A mapping that is read has two ranges of ports, and its container range is a single port or as
-- long as its host range.
pub read_port_mapping-IsMapping :
    (pm : PortMapping) (m : Mapping) → read_port_mapping pm ≡ ok m → IsMapping m
unfolding read_port_mapping
read_port_mapping-IsMapping pm m h = record {
  host = read_port_range-IsRange pm.host_port m.host (ground arith);
  container = read_port_range-IsRange pm.container_port m.container (ground arith);
  matched = ground arith;
}

-- Every mapping whose two ranges run upwards and end within the ports, and whose container range
-- is a single port or as long as its host range, is read back from the spec that it is written to.
pub read_port_mapping-to_spec : (m : Mapping) → IsMapping m → read_port_mapping (to_spec m) ≡ ok m
unfolding read_port_mapping to_spec
read_port_mapping-to_spec m v = ground (
  arith,
  read_protocol-name m.protocol,
  read_port_range-string m.host v.host,
  read_port_range-string m.container v.container,
  v.matched,
)
