-- ===== src/Tests/Rules.antt =====
-- networking/portmapping/iptables: a rule of the host's chain, and a range that meets its ports.
use hyperd.Prelude.{Option, none, some}
use hyperd.Prelude.Text.{Text, text_eq, codes}
use hyperd.PortMapping.Used.{Submatch}

abbrev rule : Text
rule = codes "-A HYPER -d 1.1.1.1/32 -p tcp -m tcp --dport 800:810 -j DNAT"

abbrev found : Submatch
found = record { proto = codes "tcp"; first = codes "800"; last = some (codes "810") }

abbrev or_found : Option Submatch → Submatch
or_found none = found
or_found (some m) = m
