-- ===== src/Tests/Networks.antt =====
-- networking/portmapping, daemon/pod/portmappings.go and servicediscovery.go on concrete mappings
-- and services, with a firewall and an ipvsadm that keep a list of what they are given.
use hyperd.Prelude.{
  ℕ, ◌≤◌, ◌≡◌, ◌⊎◌, refl, arith, Bool, true, false, not, Option, none, some, List, [], ◌∷◌, map,
  filter, any, All, ok, lookup, insert, delete,
}
use hyperd.Prelude.Text.{Text, codes, text_eq}
use hyperd.Prelude.Decimal.{itoa, parse_uint16, split_dash}
use hyperd.Prelude.Int.{pos}
use hyperd.PortSpec
use hyperd.PortSpec.{same_dest_with}
use hyperd.PortMapping.{
  PortMapper, PortRange, PortMapping, Error, port_used, Args, new_port_mapping, new_port_range,
  settle, settle_range, generate_iptables_args, generate_redirect_args, redirects_for,
  in_sandbox_mappings, allocate_map, release_map, port_set, with_port_set, is_udp, print_range,
  proto_name,
}
use hyperd.PortMapping.Setup.{
  Iptables, allocate_loop, release_down, roll_back, allocate_ports, setup_settled, setup_one,
  setup_loop, setup_iptables_port_maps,
}
use hyperd.PortMapping.Table.{AllOrNone, allocate_ports_atomic}
use hyperd.PortMapping.Rules.{
  undo, IsSettled, in_sandbox_mappings-undo, generate_iptables_args-IsSettled,
}
use hyperd.PortMapping.Leak.{SameUsers, setup_iptables_port_maps_leaks}
use hyperd.PodPorts
use hyperd.PodPorts.{
  PodNet, World, add_port_mapping, remove_port_mapping, remove_port_mapping_stricted,
}
use hyperd.PodPorts.Change.{Differs, remove_port_mapping-Committed}
use hyperd.Services.{Service, Ipvs, add, del, update}
use hyperd.Services.Keys.{distinct, services_stay_distinct}

abbrev firewall : Iptables
firewall = record {
  W = List Args;
  port_map_exists = λ w a. false;
  nat_rules = λ w. [];
  raw = λ a w. (a ∷ w, true);
  operate_delete = λ a w. w;
}

abbrev single : ℕ → PortRange
single n = record { begin = n; end = n }

abbrev http : PortMapping
http = record { protocol = codes "tcp"; to_ports = single 80; from_ports = single 8080 }

-- The next mapping wants a host port that `http` has.
abbrev rival : PortMapping
rival = record { protocol = codes "tcp"; to_ports = single 443; from_ports = single 8080 }

abbrev table : PortMapper
table = record { tcp_map = []; udp_map = [] }

abbrev ip : Text
ip = codes "192.168.0.2"

allocate_ports_atomic_example : AllOrNone ip http table (allocate_ports ip http table)
allocate_ports_atomic_example = allocate_ports_atomic ip http table

abbrev prefixes : List Text
prefixes = codes "10.0.0.0/8" ∷ []

abbrev inserted_rules : List Args
inserted_rules =
    (codes "iptables"
      ∷ codes "-t"
      ∷ codes "nat"
      ∷ codes "-I"
      ∷ codes "hyperstart-PREROUTING"
      ∷ codes "-s"
      ∷ codes "10.0.0.0/8"
      ∷ codes "-p"
      ∷ codes "tcp"
      ∷ codes "-m"
      ∷ codes "tcp"
      ∷ codes "--dport"
      ∷ codes "8080"
      ∷ codes "-j"
      ∷ codes "REDIRECT"
      ∷ codes "--to-port"
      ∷ codes "80"
      ∷ [])
    ∷ (codes "iptables"
        ∷ codes "-t"
        ∷ codes "filter"
        ∷ codes "-I"
        ∷ codes "hyperstart-INPUT"
        ∷ codes "-s"
        ∷ codes "10.0.0.0/8"
        ∷ codes "-p"
        ∷ codes "tcp"
        ∷ codes "-m"
        ∷ codes "tcp"
        ∷ codes "--dport"
        ∷ codes "8080"
        ∷ codes "-j"
        ∷ codes "ACCEPT"
        ∷ [])
    ∷ []

in_sandbox_mappings-undo_example :
    in_sandbox_mappings false prefixes (http ∷ []) ≡ ok (map undo inserted_rules)
unfolding in_sandbox_mappings redirects_for generate_redirect_args settle settle_range print_range
    itoa proto_name is_udp
in_sandbox_mappings-undo_example = in_sandbox_mappings-undo prefixes (http ∷ []) inserted_rules refl

abbrev nat_rule : Args
nat_rule =
    codes "-p"
    ∷ codes "tcp"
    ∷ codes "-m"
    ∷ codes "tcp"
    ∷ codes "--dport"
    ∷ codes "8080"
    ∷ codes "-j"
    ∷ codes "DNAT"
    ∷ codes "--to-destination"
    ∷ codes "192.168.0.2:80"
    ∷ []

abbrev filter_rule : Args
filter_rule =
    codes "-d"
    ∷ ip
    ∷ codes "-p"
    ∷ codes "tcp"
    ∷ codes "-m"
    ∷ codes "tcp"
    ∷ codes "--dport"
    ∷ codes "80"
    ∷ codes "-j"
    ∷ codes "ACCEPT"
    ∷ []

generate_iptables_args-IsSettled_example : IsSettled http × (8080 ≤ 65535) × (80 ≤ 65535)
unfolding new_port_mapping new_port_range generate_iptables_args settle settle_range print_range
    itoa proto_name is_udp parse_uint16 split_dash
generate_iptables_args-IsSettled_example =
    generate_iptables_args-IsSettled (codes "tcp") (codes "8080") (codes "80") ip http http nat_rule
      filter_rule refl refl

abbrev after_http : PortMapper × List Args × List Args × Option Error
after_http = setup_loop firewall ip (http ∷ []) [] table []

setup_iptables_port_maps_leaks_example :
    ((setup_iptables_port_maps firewall ip (http ∷ rival ∷ []) table []).2
      ≡ some (port_used 8080 ip 80))
    × SameUsers after_http.0 (setup_iptables_port_maps firewall ip (http ∷ rival ∷ []) table []).0
unfolding setup_loop setup_one setup_settled generate_iptables_args settle settle_range
    allocate_ports allocate_loop roll_back release_down allocate_map release_map port_set
    with_port_set is_udp lookup insert delete print_range itoa proto_name
setup_iptables_port_maps_leaks_example =
    setup_iptables_port_maps_leaks firewall ip (http ∷ []) [] rival table after_http.0 []
      after_http.1 after_http.2 (port_used 8080 ip 80) refl refl

abbrev public_web : PortSpec.PortMapping
public_web = record {
  container_port = codes "80";
  host_port = codes "8080";
  protocol = codes "tcp";
}

abbrev pod_net : PodNet
pod_net = record {
  alive = true;
  container_ip = ip;
  port_mappings = public_web ∷ [];
  prestart_execs = [];
  has_sandbox = true;
  internal_networks = [];
  external_networks = [];
}

abbrev world : World firewall
world = (pod_net, table, [])

abbrev succeeds : Args → Bool
succeeds a = true

remove_port_mapping-Committed_example :
    (((remove_port_mapping firewall same_dest_with succeeds false (public_web ∷ []) world).1 ≡ none)
      × ((remove_port_mapping firewall same_dest_with succeeds false
            (public_web ∷ [])
            world).0.0.port_mappings
          ≡ filter
              (λ pm. not (any (λ sel. same_dest_with pm sel) (public_web ∷ [])))
              (public_web ∷ [])))
    ⊎ ((e : PodPorts.Error) × ((remove_port_mapping firewall same_dest_with succeeds false
            (public_web ∷ [])
            world).1
          ≡ some e)
        × ((remove_port_mapping firewall same_dest_with succeeds false
              (public_web ∷ [])
              world).0.0.port_mappings
            ≡ public_web ∷ []))
remove_port_mapping-Committed_example =
    remove_port_mapping-Committed firewall same_dest_with succeeds false (public_web ∷ []) world
      refl

public_web-Differs : All Differs (public_web ∷ [])
public_web-Differs = ((λ e. ground arith), tt)

abbrev ipvsadm : Ipvs
ipvsadm = record {
  W = List Text;
  listing = λ w. some (codes "");
  clear = λ w. ([], true);
  restore = λ patch w. (patch ∷ w, true);
}

abbrev dns : Service
dns = record {
  service_ip = codes "10.254.0.24";
  service_port = pos 53;
  protocol = codes "udp";
  hosts = record { host_ip = codes "192.168.23.2"; host_port = pos 2345 } ∷ [];
}

services_stay_distinct_example :
    (distinct (add ipvsadm true (dns ∷ []) (dns ∷ [], [])).0.0 ≡ true)
    × (distinct (del ipvsadm true (dns ∷ []) (dns ∷ [], [])).0.0 ≡ true)
    × (distinct (update ipvsadm true (dns ∷ []) (dns ∷ [], [])).0.0 ≡ true)
services_stay_distinct_example = services_stay_distinct ipvsadm true (dns ∷ []) (dns ∷ [], []) refl

abbrev dns_patch : Text
dns_patch = codes "-A -u 10.254.0.24:53 -s rr\n-a -u 10.254.0.24:53 -r 192.168.23.2:2345 -m -w 1\n"
