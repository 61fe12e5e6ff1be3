-- ===== src/Tests/Ports.antt =====
-- types/utils.go on concrete port mappings.
use hyperd.Prelude.{◌≡◌, refl, arith, [], ok}
use hyperd.Prelude.Text.{codes}
use hyperd.Prelude.Decimal.{parse_uint16, split_dash}
use hyperd.PortSpec.{
  PortRange, PortMapping, Mapping, Protocol, ContainerPort, read_port_range, read_port_mapping,
  read_protocol, to_spec,
}
use hyperd.PortSpec.RoundTrip.{IsRange, read_port_mapping-IsMapping, read_port_mapping-to_spec}

abbrev web_ports : PortRange
web_ports = record { start = 8080; end = 8089 }

web_ports-IsRange : IsRange web_ports
web_ports-IsRange = record { ordered = omega arith; bounded = omega arith }

-- A host range in front of a range of containers' ports, and its reading.
abbrev spec : PortMapping
spec = record { container_port = codes "80-89"; host_port = codes "8080-8089"; protocol = [] }

abbrev mapping : Mapping
mapping = record {
  host = web_ports;
  protocol = Protocol.tcp;
  container = record { start = 80; end = 89 };
}

read_port_mapping-to_spec_example : read_port_mapping (to_spec mapping) ≡ ok mapping
unfolding read_port_mapping read_protocol read_port_range parse_uint16 split_dash
read_port_mapping-to_spec_example =
    read_port_mapping-to_spec mapping (read_port_mapping-IsMapping spec mapping refl)

abbrev formal : PortMapping
formal = record {
  container_port = codes "80-89";
  host_port = codes "8080-8089";
  protocol = codes "tcp";
}

abbrev http : ContainerPort
http = record { host_port = 8080; container_port = 80; protocol = codes "tcp" }
