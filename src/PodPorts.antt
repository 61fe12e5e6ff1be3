-- ===== src/PodPorts.antt =====
-- daemon/pod/portmappings.go: the port mappings of a pod. The table of host ports, the iptables
-- state and the in-sandbox commands are those of PortMapping; whether a command succeeds in the
-- sandbox is the parameter `exec`. Persisting the mappings has no effect on the result, as its
-- error is ignored.
pub mod Change
use hyperd.Prelude.{
  ℕ, Bool, true, false, not, ◌&&◌, ◌||◌, Option, none, some, List, [], ◌∷◌, ◌++◌, ◌==◌, any, filter,
  if◌then◌else◌, Result, ok, err, ◌>>=◌,
}
use hyperd.Prelude.Text.{Text, text_eq}
use hyperd.PortSpec
use hyperd.PortMapping
use hyperd.PortMapping.{PortMapper, Args, new_port_mapping}
use hyperd.PortMapping.Setup.{Iptables, setup_port_maps, release_port_maps}

pub data Error : Type 0 where
  pod_not_alive exec_failed : Error
  mapping : PortMapping.Error → Error

-- The fields of an `XPod` that these methods read and write.
pub record PodNet : Type 0 where
  pub alive : Bool
  pub container_ip : Text
  pub port_mappings : List PortSpec.PortMapping
  pub prestart_execs : List Args
  pub has_sandbox : Bool
  pub internal_networks : List Text
  pub external_networks : List Text

-- translatePortMapping
unfoldable pub translate_port_mapping :
    List PortSpec.PortMapping → Result PortMapping.Error (List PortMapping.PortMapping)
unfolding new_port_mapping
translate_port_mapping [] = ok []
translate_port_mapping (e ∷ es) = do
  pm ← new_port_mapping e.protocol e.host_port e.container_port
  rest ← translate_port_mapping es
  ok (pm ∷ rest)

abbrev is_nil {ℓ} : {A : Type ℓ} → List A → Bool
is_nil [] = true
is_nil (x ∷ xs) = false

-- The prefixes of the external networks, if both white lists are filled.
unfoldable pub ext_prefix : PodNet → List Text
ext_prefix pod =
    if is_nil pod.internal_networks || is_nil pod.external_networks
    then []
    else pod.external_networks

-- HyperstartExecSync on each command, up to the first that fails
unfoldable pub exec_all : (Args → Bool) → List Args → Bool
exec_all exec [] = true
exec_all exec (c ∷ cs) = if exec c then exec_all exec cs else false

module _ (t : Iptables) where
  open t use {W}

  abbrev pub World : Type 0
  World = PodNet × PortMapper × W

  unfoldable pub init_port_mapping : Bool → World → World × Option Error
  unfolding translate_port_mapping ext_prefix setup_port_maps
  init_port_mapping disabled (pod, p, w) =
      if is_nil pod.container_ip || is_nil pod.port_mappings
      then ((pod, p, w), none)
      else elim (translate_port_mapping pod.port_mappings) [
        | err e ↦ ((pod, p, w), some (mapping e))
        | ok pms ↦
            let (pre, p', w', e) =
              setup_port_maps t disabled pod.container_ip (ext_prefix pod) pms p w in
            elim e [
              | some x ↦ ((pod, p', w'), some (mapping x))
              | none ↦ ((record pod { prestart_execs = pod.prestart_execs ++ pre }, p', w'), none)
            ]
      ]

  unfoldable pub flush_port_mapping : Bool → World → World × Option Error
  unfolding translate_port_mapping release_port_maps
  flush_port_mapping disabled (pod, p, w) =
      if is_nil pod.container_ip || is_nil pod.port_mappings
      then ((pod, p, w), none)
      else elim (translate_port_mapping pod.port_mappings) [
        | err e ↦ ((pod, p, w), some (mapping e))
        | ok pms ↦
            let (post, p', w', e) = release_port_maps t disabled pod.container_ip [] pms p w in
            elim e [ some x ↦ ((pod, p', w'), some (mapping x)) | none ↦ ((pod, p', w'), none) ]
      ]

  -- AddPortMapping, once the host's rules are set up
  add_recorded :
      (Args → Bool) → List PortSpec.PortMapping → List Args → World → World × Option Error
  add_recorded exec spec pre (pod, p, w) =
      let pod' = record pod { prestart_execs = pod.prestart_execs ++ pre } in
      if pod.has_sandbox && not (exec_all exec pre)
      then ((pod', p, w), some exec_failed)
      else ((record pod' { port_mappings = spec ++ pod.port_mappings }, p, w), none)

  unfoldable pub add_port_mapping :
      (Args → Bool) → Bool → List PortSpec.PortMapping → World → World × Option Error
  unfolding translate_port_mapping ext_prefix setup_port_maps add_recorded exec_all
  add_port_mapping exec disabled spec (pod, p, w) =
      if not pod.alive
      then ((pod, p, w), some pod_not_alive)
      else if is_nil pod.container_ip || is_nil spec
      then ((pod, p, w), none)
      else elim (translate_port_mapping spec) [
        | err e ↦ ((pod, p, w), some (mapping e))
        | ok pms ↦
            let (pre, p', w', e) =
              setup_port_maps t disabled pod.container_ip (ext_prefix pod) pms p w in
            elim e [
              | some x ↦ ((pod, p', w'), some (mapping x))
              | none ↦ add_recorded exec spec pre (pod, p', w')
            ]
      ]

  -- The mappings that one of `tbr` selects.
  abbrev pub selected :
      (PortSpec.PortMapping → PortSpec.PortMapping → Bool)
      → List PortSpec.PortMapping
      → PortSpec.PortMapping
      → Bool
  selected eq tbr pm = any (λ sel. eq pm sel) tbr

  -- removePortMapping from the release of the host's rules on
  remove_released :
      (Args → Bool)
      → Bool
      → List PortSpec.PortMapping
      → List PortMapping.PortMapping
      → World
      → World × Option Error
  unfolding ext_prefix release_port_maps exec_all
  remove_released exec disabled other act (pod, p, w) =
      let (post, p', w', e) =
        release_port_maps t disabled pod.container_ip (ext_prefix pod) act p w in
      elim e [
        | some x ↦ ((pod, p', w'), some (mapping x))
        | none ↦
            if pod.has_sandbox && not (exec_all exec post)
            then ((pod, p', w'), some exec_failed)
            else ((record pod { port_mappings = other }, p', w'), none)
      ]

  unfoldable pub remove_port_mapping :
      (PortSpec.PortMapping → PortSpec.PortMapping → Bool)
      → (Args → Bool)
      → Bool
      → List PortSpec.PortMapping
      → World
      → World × Option Error
  unfolding translate_port_mapping remove_released
  remove_port_mapping eq exec disabled tbr (pod, p, w) =
      let rm = filter (selected eq tbr) pod.port_mappings in
      let other = filter (λ pm. not (selected eq tbr pm)) pod.port_mappings in
      if is_nil pod.container_ip || (is_nil pod.port_mappings || is_nil tbr)
      then ((pod, p, w), none)
      else if is_nil rm
      then ((pod, p, w), none)
      else elim (translate_port_mapping rm) [
        | err e ↦ ((pod, p, w), some (mapping e))
        | ok act ↦ remove_released exec disabled other act (pod, p, w)
      ]

  unfoldable pub remove_port_mapping_by_dest :
      (Args → Bool) → Bool → List PortSpec.PortMapping → World → World × Option Error
  unfolding remove_port_mapping
  remove_port_mapping_by_dest = remove_port_mapping PortSpec.same_dest_with

  unfoldable pub remove_port_mapping_stricted :
      (Args → Bool) → Bool → List PortSpec.PortMapping → World → World × Option Error
  unfolding remove_port_mapping
  remove_port_mapping_stricted = remove_port_mapping PortSpec.equal_to
