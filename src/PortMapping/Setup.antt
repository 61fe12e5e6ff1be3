-- ===== src/PortMapping/Setup.antt =====
-- networking/portmapping/host_portmapping_linux.go, portmapping_interfaces.go: setting rules up
-- and releasing them.
use hyperd.Prelude.{
  ℕ, zero, suc, ◌+◌, ◌-◌, Bool, true, false, not, Option, none, some, List, [], ◌∷◌, ◌++◌,
  if◌then◌else◌, nat_beq, ok, err,
}
use hyperd.Prelude.Text.{Text, codes}
use hyperd.PortMapping.{
  PortMapper, Error, host_port_used, raw_failed, PortRange, PortMapping, Args, allocate_map,
  release_map, generate_iptables_args, in_sandbox_mappings, is_udp,
}
use hyperd.PortMapping.Used.{port_map_used}

-- The loop that allocates host ports from `i` on, `n` of them: the index at which it stops, the
-- table, and the error.
unfoldable pub allocate_loop : Text → Text → ℕ → ℕ → ℕ → PortMapper → ℕ × PortMapper × Option Error
allocate_loop proto ip zero i j p = (i, p, none)
allocate_loop proto ip (suc n) i j p =
    let (p', e) = allocate_map proto i ip j p in
    elim e [ some x ↦ (i, p', some x) | none ↦ allocate_loop proto ip n (i + 1) (j + 1) p' ]

-- The deferred loop that releases the ports from `begin` up, `n` of them, highest first.
unfoldable pub release_down : Text → ℕ → ℕ → PortMapper → PortMapper
release_down proto begin zero p = p
release_down proto begin (suc n) p = release_down proto begin n (release_map proto (begin + n) p)

-- The deferred release: on an error, the ports below the index at which the loop stopped.
unfoldable pub roll_back : Text → ℕ → ℕ × PortMapper × Option Error → PortMapper × Option Error
roll_back proto begin (i, p, none) = (p, none)
roll_back proto begin (i, p, some x) = (release_down proto begin (i - begin) p, some x)

-- The allocation of one mapping's ports, with the deferred release on an error.
unfoldable pub allocate_ports : Text → PortMapping → PortMapper → PortMapper × Option Error
unfolding allocate_loop release_down roll_back
allocate_ports ip m p =
    let begin = m.from_ports.begin in
    roll_back m.protocol begin
      (allocate_loop m.protocol ip (m.from_ports.end + 1 - begin) begin m.to_ports.begin p)

-- The iptables command: its state, what the calls of the package iptables answer, and the output of
-- `iptables -t nat -S HYPER`, which PortMapUsed reads.
pub record Iptables : Type 1 where
  pub W : Type 0
  pub port_map_exists : W → Args → Bool
  pub nat_rules : W → Text
  pub raw : Args → W → W × Bool
  pub operate_delete : Args → W → W

module _ (t : Iptables) where
  open t use {W, port_map_exists, nat_rules, raw, operate_delete}

  -- One round of the loop of setupIptablesPortMaps, once the arguments are generated.
  unfoldable pub setup_settled :
      Text → PortMapping → Args → Args → PortMapper → W → PortMapper × W × List Args × Option Error
  unfolding allocate_ports port_map_used
  setup_settled ip m nat filter p w =
      if port_map_exists w nat
      then (p, w, [], none)
      else if port_map_used (nat_rules w) m.protocol m.from_ports.begin m.from_ports.end
      then (p, w, [], some host_port_used)
      else let (w1, added) = raw (codes "-t" ∷ codes "nat" ∷ codes "-I" ∷ codes "HYPER" ∷ nat) w in
        let (w2, accepted) = raw (codes "-I" ∷ codes "HYPER" ∷ filter) w1 in
        let undo_nat = codes "-t" ∷ codes "nat" ∷ codes "-D" ∷ codes "HYPER" ∷ nat in
        let undo_filter = codes "-D" ∷ codes "HYPER" ∷ filter in
        let (p', e) = allocate_ports ip m p in
        if not added
        then (p, w1, [], some raw_failed)
        else if not accepted
        then (p, w2, undo_nat ∷ [], some raw_failed)
        else (p', w2, undo_nat ∷ undo_filter ∷ [], e)

  -- One round: the table, the iptables state, the rules that a failure has to revert, and the
  -- error.
  unfoldable pub setup_one :
      Text → PortMapping → PortMapper → W → PortMapper × W × List Args × Option Error
  unfolding setup_settled
  setup_one ip m p w = elim (generate_iptables_args ip m) [
    | err e ↦ (p, w, [], some e)
    | ok (m', nat, filter) ↦ setup_settled ip m' nat filter p w
  ]

  -- The loop of setupIptablesPortMaps
  unfoldable pub setup_loop :
      Text
      → List PortMapping
      → List Args
      → PortMapper
      → W
      → PortMapper × W × List Args × Option Error
  unfolding setup_one
  setup_loop ip [] rules p w = (p, w, rules, none)
  setup_loop ip (m ∷ ms) rules p w =
      let (p', w', new, e) = setup_one ip m p w in
      elim e [
        | some x ↦ (p', w', rules ++ new, some x)
        | none ↦ setup_loop ip ms (rules ++ new) p' w'
      ]

  -- The deferred loop over the rules to revert; their errors are ignored.
  unfoldable pub revert : List Args → W → W
  revert [] w = w
  revert (r ∷ rs) w = revert rs (raw r w).0

  -- The deferred function of setupIptablesPortMaps
  unfoldable pub revert_on_error :
      PortMapper × W × List Args × Option Error → PortMapper × W × Option Error
  unfolding revert
  revert_on_error (p, w, rules, some x) = (p, revert rules w, some x)
  revert_on_error (p, w, rules, none) = (p, w, none)

  unfoldable pub setup_iptables_port_maps :
      Text → List PortMapping → PortMapper → W → PortMapper × W × Option Error
  unfolding setup_loop revert_on_error
  setup_iptables_port_maps ip ms p w = revert_on_error (setup_loop ip ms [] p w)

  -- The release of the host ports from `i` on, `n` of them; ReleaseMap never fails.
  unfoldable pub release_up : Text → ℕ → ℕ → PortMapper → PortMapper
  release_up proto zero i p = p
  release_up proto (suc n) i p = release_up proto n (i + 1) (release_map proto i p)

  -- One round of releaseIptablesPortMaps
  unfoldable pub release_one : Text → PortMapping → PortMapper → W → PortMapper × W
  unfolding release_up is_udp
  release_one ip m p w =
      let proto = if is_udp m.protocol then m.protocol else codes "tcp" in
      let from : PortRange = record m.from_ports {
        end = if nat_beq m.from_ports.end 0 then m.from_ports.begin else m.from_ports.end;
      } in
      let m' : PortMapping = record m { protocol = proto; from_ports = from } in
      let p' = release_up proto (from.end + 1 - from.begin) from.begin p in
      elim (generate_iptables_args ip m') [
        | err e ↦ (p', w)
        | ok (m'', nat, filter) ↦
            (p', (raw (codes "-D" ∷ codes "HYPER" ∷ filter) (operate_delete nat w)).0)
      ]

  unfoldable pub release_iptables_port_maps :
      Text → List PortMapping → PortMapper → W → PortMapper × W
  unfolding release_one
  release_iptables_port_maps ip [] p w = (p, w)
  release_iptables_port_maps ip (m ∷ ms) p w =
      let (p', w') = release_one ip m p w in release_iptables_port_maps ip ms p' w'

  abbrev is_nil {ℓ} : {A : Type ℓ} → List A → Bool
  is_nil [] = true
  is_nil (x ∷ xs) = false

  -- portmapping_interfaces.go: SetupPortMaps; `disabled` is the package's disableIptables. On an
  -- error of the host rules the result holds the commands that release the sandbox's rules.
  setup_host :
      Bool
      → Text
      → List Text
      → List PortMapping
      → List Args
      → PortMapper
      → W
      → List Args × PortMapper × W × Option Error
  unfolding setup_iptables_port_maps
  setup_host disabled ip prefixes ms pre p w =
      let (p', w', e) = setup_iptables_port_maps ip ms p w in
      if disabled then (pre, p, w, none) else elim e [
        | none ↦ (pre, p', w', none)
        | some x ↦
            if is_nil prefixes
            then ([], p', w', some x)
            else elim (in_sandbox_mappings false prefixes ms) [
              | ok rel ↦ (rel, p', w', some x)
              | err _ ↦ ([], p', w', some x)
            ]
      ]

  unfoldable pub setup_port_maps :
      Bool
      → Text
      → List Text
      → List PortMapping
      → PortMapper
      → W
      → List Args × PortMapper × W × Option Error
  unfolding setup_host
  setup_port_maps disabled ip prefixes [] p w = ([], p, w, none)
  setup_port_maps disabled ip prefixes (m ∷ ms) p w =
      if is_nil prefixes
      then setup_host disabled ip prefixes (m ∷ ms) [] p w
      else elim (in_sandbox_mappings true prefixes (m ∷ ms)) [
        | err x ↦ ([], p, w, some x)
        | ok pre ↦ setup_host disabled ip prefixes (m ∷ ms) pre p w
      ]

  -- portmapping_interfaces.go: ReleasePortMaps
  release_host :
      Bool
      → Text
      → List PortMapping
      → List Args
      → PortMapper
      → W
      → List Args × PortMapper × W × Option Error
  unfolding release_iptables_port_maps
  release_host disabled ip ms post p w =
      let (p', w') = release_iptables_port_maps ip ms p w in
      if disabled then (post, p, w, none) else (post, p', w', none)

  unfoldable pub release_port_maps :
      Bool
      → Text
      → List Text
      → List PortMapping
      → PortMapper
      → W
      → List Args × PortMapper × W × Option Error
  unfolding release_host
  release_port_maps disabled ip prefixes [] p w = ([], p, w, none)
  release_port_maps disabled ip prefixes (m ∷ ms) p w =
      if is_nil prefixes
      then release_host disabled ip (m ∷ ms) [] p w
      else elim (in_sandbox_mappings false prefixes (m ∷ ms)) [
        | err x ↦ ([], p, w, some x)
        | ok post ↦ release_host disabled ip (m ∷ ms) post p w
      ]
