-- ===== src/PodPorts/Change.antt =====
-- daemon/pod/portmappings.go: what adding and removing make of a pod's list of mappings.
use hyperd.Prelude.{
  ◌≡◌, refl, sym, ap, ◌≢◌, ◌⊎◌, inl, inr, Bool, true, false, not, ◌&&◌, ◌||◌, Option, none, some,
  List, [], ◌∷◌, ◌++◌, arith, any, filter, All, if◌then◌else◌, Result, ok, err, Bool-cases,
}
use hyperd.Prelude.Text.{text_eq, text_beq_iff}
use hyperd.PortSpec
use hyperd.PortSpec.{equal_to}
use hyperd.PortMapping
use hyperd.PortMapping.{PortMapper, Args}
use hyperd.PortMapping.Setup.{Iptables, release_port_maps, setup_port_maps}
use hyperd.PodPorts.{
  Error, PodNet, World, add_port_mapping, remove_port_mapping, remove_port_mapping_stricted,
  exec_failed, mapping, pod_not_alive, ext_prefix, exec_all, translate_port_mapping, add_recorded,
  remove_released, is_nil,
}

equal_to-ports :
    (pm other : PortSpec.PortMapping) → equal_to pm other ≡ true → pm.host_port ≡ pm.container_port
unfolding equal_to
equal_to-ports pm other h = ground (
  arith,
  text_beq_iff pm.container_port other.container_port,
  text_beq_iff pm.host_port other.container_port,
)

-- The mapping's host port and container port are written differently.
abbrev pub Differs : PortSpec.PortMapping → Type 0
Differs pm = pm.host_port ≢ pm.container_port

filter-not_none :
    (f : PortSpec.PortMapping → Bool) (pms : List PortSpec.PortMapping)
    → is_nil (filter f pms) ≡ true
    → filter (λ pm. not (f pm)) pms ≡ pms
filter-not_none f [] h = refl
filter-not_none f (pm ∷ pms) h = elim (Bool-cases (f pm)) [
  | inl e ↦ absurd (ground arith)
  | inr e ↦ ground (arith, filter-not_none f pms)
]

filter_selected_nil :
    (eq : PortSpec.PortMapping → PortSpec.PortMapping → Bool) (tbr pms : List PortSpec.PortMapping)
    → is_nil tbr ≡ true
    → filter (λ pm. not (any (λ sel. eq pm sel) tbr)) pms ≡ pms
filter_selected_nil eq [] [] h = refl
filter_selected_nil eq [] (pm ∷ pms) h = ap (λ r. pm ∷ r) (filter_selected_nil eq [] pms h)
filter_selected_nil eq (x ∷ tbr) pms h = absurd (ground arith)

strict_selects_none :
    (tbr pms : List PortSpec.PortMapping)
    → All Differs pms
    → is_nil (filter (λ pm. any (λ sel. equal_to pm sel) tbr) pms) ≡ true
strict_selects_none tbr [] d = refl
strict_selects_none tbr (pm ∷ pms) d = elim (Bool-cases (any (λ sel. equal_to pm sel) tbr)) [
  | inl e ↦ absurd (d.0 (found tbr e))
  | inr e ↦ rw e (strict_selects_none tbr pms d.1)
]
  where
    found :
        (tbr : List PortSpec.PortMapping)
        → any (λ sel. equal_to pm sel) tbr ≡ true
        → pm.host_port ≡ pm.container_port
    found [] h = absurd (ground arith)
    found (sel ∷ rest) h = elim (Bool-cases (equal_to pm sel)) [
      | inl e ↦ equal_to-ports pm sel e
      | inr e ↦ found rest (ground arith)
    ]

module _ (t : Iptables) where
  -- The new list of mappings on success, the old one on an error.
  abbrev pub Committed :
      List PortSpec.PortMapping → List PortSpec.PortMapping → World t × Option Error → Type 0
  Committed new old r =
      ((r.1 ≡ none) × (r.0.0.port_mappings ≡ new))
      ⊎ ((e : Error) × (r.1 ≡ some e) × (r.0.0.port_mappings ≡ old))

  unless-Committed :
      (c : Bool) (pod pod' : PodNet) (p : PortMapper) (w : t.W) (new : List PortSpec.PortMapping)
      → pod.port_mappings ≡ pod'.port_mappings
      → Committed new pod'.port_mappings (
          if c
          then ((pod, p, w), some exec_failed)
          else ((record pod { port_mappings = new }, p, w), none))
  unless-Committed true pod pod' p w new e = inr (exec_failed, refl, e)
  unless-Committed false pod pod' p w new e = inl (refl, refl)

  released-Committed :
      (e : Option PortMapping.Error) (c : Bool) (pod : PodNet) (p : PortMapper) (w : t.W)
      (new : List PortSpec.PortMapping)
      → Committed new pod.port_mappings (elim e [
        | some x ↦ ((pod, p, w), some (mapping x))
        | none ↦
            if c
            then ((pod, p, w), some exec_failed)
            else ((record pod { port_mappings = new }, p, w), none)
      ])
  released-Committed (some x) c pod p w new = inr (mapping x, refl, refl)
  released-Committed none c pod p w new = unless-Committed c pod pod p w new refl

  remove_released-Committed :
      (exec : Args → Bool) (disabled : Bool) (other : List PortSpec.PortMapping)
      (act : List PortMapping.PortMapping) (s : World t)
      → Committed other s.0.port_mappings (remove_released t exec disabled other act s)
  unfolding remove_released
  remove_released-Committed exec disabled other act (pod, p, w) =
      let r = release_port_maps t disabled pod.container_ip (ext_prefix pod) act p w in
      released-Committed r.3 (pod.has_sandbox && not (exec_all exec r.0)) pod r.1 r.2 other

  add_recorded-Committed :
      (exec : Args → Bool) (spec : List PortSpec.PortMapping) (pre : List Args) (s : World t)
      → Committed (spec ++ s.0.port_mappings) s.0.port_mappings (add_recorded t exec spec pre s)
  unfolding add_recorded
  add_recorded-Committed exec spec pre (pod, p, w) =
      unless-Committed (pod.has_sandbox && not (exec_all exec pre))
        (record pod { prestart_execs = pod.prestart_execs ++ pre }) pod p w
        (spec ++ pod.port_mappings) refl

  translated-Committed :
      (r : Result PortMapping.Error (List PortMapping.PortMapping))
      (k : List PortMapping.PortMapping → World t × Option Error) (new : List PortSpec.PortMapping)
      (s : World t)
      → ((ms : List PortMapping.PortMapping) → Committed new s.0.port_mappings (k ms))
      → Committed new s.0.port_mappings (elim r [ err e ↦ (s, some (mapping e)) | ok ms ↦ k ms ])
  translated-Committed (ok ms) k new s h = h ms
  translated-Committed (err e) k new s h = inr (mapping e, refl, refl)

  kept-Committed :
      (c : Bool) (r : World t × Option Error) (new : List PortSpec.PortMapping) (s : World t)
      → ((c ≡ true) → new ≡ s.0.port_mappings)
      → Committed new s.0.port_mappings r
      → Committed new s.0.port_mappings (if c then (s, none) else r)
  kept-Committed true r new s same h = inl (refl, sym (same refl))
  kept-Committed false r new s same h = h

  -- Removing port mappings from a pod that has an address, by either comparison, has one of two
  -- outcomes. Without an error the pod keeps exactly the mappings that none of those to be removed
  -- selects, in their order; with an error its list of mappings is the one it had.
  pub remove_port_mapping-Committed :
      (eq : PortSpec.PortMapping → PortSpec.PortMapping → Bool) (exec : Args → Bool)
      (disabled : Bool) (tbr : List PortSpec.PortMapping) (s : World t)
      → is_nil s.0.container_ip ≡ false
      → Committed
          (filter (λ pm. not (any (λ sel. eq pm sel) tbr)) s.0.port_mappings)
          s.0.port_mappings
          (remove_port_mapping t eq exec disabled tbr s)
  unfolding remove_port_mapping
  remove_port_mapping-Committed eq exec disabled tbr (pod, p, w) addressed =
      kept-Committed (is_nil pod.container_ip || (is_nil pod.port_mappings || is_nil tbr)) rest
        (filter (λ pm. not (any (λ sel. eq pm sel) tbr)) pod.port_mappings) (pod, p, w)
        (λ h. nothing pod.port_mappings (ground arith))
        (kept-Committed (is_nil rm) (found rm)
          (filter (λ pm. not (any (λ sel. eq pm sel) tbr)) pod.port_mappings) (pod, p, w)
          (filter-not_none (λ pm. any (λ sel. eq pm sel) tbr) pod.port_mappings)
          (translated-Committed (translate_port_mapping rm)
            (λ act. remove_released t exec disabled other act (pod, p, w)) other (pod, p, w)
            (λ act. remove_released-Committed exec disabled other act (pod, p, w))))
    where
      rm : List PortSpec.PortMapping
      rm = filter (λ pm. any (λ sel. eq pm sel) tbr) pod.port_mappings

      other : List PortSpec.PortMapping
      other = filter (λ pm. not (any (λ sel. eq pm sel) tbr)) pod.port_mappings

      found : List PortSpec.PortMapping → World t × Option Error
      found ms = elim (translate_port_mapping ms) [
        | err e ↦ ((pod, p, w), some (mapping e))
        | ok act ↦ remove_released t exec disabled other act (pod, p, w)
      ]

      rest : World t × Option Error
      rest = if is_nil rm then ((pod, p, w), none) else found rm

      nothing :
          (pms : List PortSpec.PortMapping)
          → (is_nil pms ≡ true) ⊎ (is_nil tbr ≡ true)
          → filter (λ pm. not (any (λ sel. eq pm sel) tbr)) pms ≡ pms
      nothing [] h = refl
      nothing (x ∷ pms) (inl h) = absurd (ground arith)
      nothing (x ∷ pms) (inr h) = filter_selected_nil eq tbr (x ∷ pms) h

  set_up-Committed :
      (e : Option PortMapping.Error) (pod : PodNet) (p : PortMapper) (w : t.W)
      (new : List PortSpec.PortMapping) (k : World t × Option Error)
      → Committed new pod.port_mappings k
      → Committed new pod.port_mappings
          (elim e [ some x ↦ ((pod, p, w), some (mapping x)) | none ↦ k ])
  set_up-Committed (some x) pod p w new k h = inr (mapping x, refl, refl)
  set_up-Committed none pod p w new k h = h

  refused-Committed :
      (alive : Bool) (new : List PortSpec.PortMapping) (s : World t) (k : World t × Option Error)
      → Committed new s.0.port_mappings k
      → Committed new s.0.port_mappings (if not alive then (s, some pod_not_alive) else k)
  refused-Committed true new s k h = h
  refused-Committed false new s k h = inr (pod_not_alive, refl, refl)

  -- Adding port mappings to a pod that has an address has one of two outcomes. Without an error
  -- the pod's mappings are the new ones followed by the old ones; with an error, of a pod that is
  -- not alive, of the translation, of the setup or of a command in the sandbox, they are the old
  -- ones.
  pub add_port_mapping-Committed :
      (exec : Args → Bool) (disabled : Bool) (spec : List PortSpec.PortMapping) (s : World t)
      → is_nil s.0.container_ip ≡ false
      → Committed
          (spec ++ s.0.port_mappings)
          s.0.port_mappings
          (add_port_mapping t exec disabled spec s)
  unfolding add_port_mapping
  add_port_mapping-Committed exec disabled spec (pod, p, w) addressed =
      refused-Committed pod.alive (spec ++ pod.port_mappings) (pod, p, w)
        (if is_nil pod.container_ip || is_nil spec then ((pod, p, w), none) else rest)
        (kept-Committed (is_nil pod.container_ip || is_nil spec) rest (spec ++ pod.port_mappings)
          (pod, p, w) (λ h. no_mappings spec (ground arith))
          (translated-Committed (translate_port_mapping spec) set_up (spec ++ pod.port_mappings)
            (pod, p, w)
            (λ ms.
              set_up-Committed (result ms).3 pod (result ms).1 (result ms).2
                (spec ++ pod.port_mappings)
                (add_recorded t exec spec (result ms).0 (pod, (result ms).1, (result ms).2))
                (add_recorded-Committed exec spec (result ms).0
                  (pod, (result ms).1, (result ms).2)))))
    where
      result :
          List PortMapping.PortMapping → List Args × PortMapper × t.W × Option PortMapping.Error
      result ms = setup_port_maps t disabled pod.container_ip (ext_prefix pod) ms p w

      set_up : List PortMapping.PortMapping → World t × Option Error
      set_up ms =
          let (pre, p', w', e) = result ms in
          elim e [
            | some x ↦ ((pod, p', w'), some (mapping x))
            | none ↦ add_recorded t exec spec pre (pod, p', w')
          ]

      rest : World t × Option Error
      rest = elim (translate_port_mapping spec) [
        | err e ↦ ((pod, p, w), some (mapping e))
        | ok ms ↦ set_up ms
      ]

      no_mappings :
          (l : List PortSpec.PortMapping)
          → is_nil l ≡ true
          → l ++ pod.port_mappings ≡ pod.port_mappings
      no_mappings [] h = refl
      no_mappings (x ∷ l) h = absurd (ground arith)

  if_nil_selected :
      (c : Bool) (s : World t) (l : List PortSpec.PortMapping) (k : World t × Option Error)
      → is_nil l ≡ true
      → (if c then (s, none) else if is_nil l then (s, none) else k) ≡ (s, none)
  if_nil_selected true s l k h = refl
  if_nil_selected false s [] k h = refl
  if_nil_selected false s (x ∷ l) k h = absurd (ground arith)

  -- Where each of the pod's mappings has a host port written differently from its container port,
  -- the strict removal does nothing and reports no error, whatever mappings it is given, those of
  -- the pod included: its comparison asks the host port to be the container port.
  pub remove_port_mapping_stricted-removes_none :
      (exec : Args → Bool) (disabled : Bool) (tbr : List PortSpec.PortMapping) (s : World t)
      → All Differs s.0.port_mappings
      → remove_port_mapping_stricted t exec disabled tbr s ≡ (s, none)
  unfolding remove_port_mapping remove_port_mapping_stricted
  remove_port_mapping_stricted-removes_none exec disabled tbr (pod, p, w) d =
      if_nil_selected (is_nil pod.container_ip || (is_nil pod.port_mappings || is_nil tbr))
        (pod, p, w) (filter (λ pm. any (λ sel. equal_to pm sel) tbr) pod.port_mappings) _
        (strict_selects_none tbr pod.port_mappings d)
