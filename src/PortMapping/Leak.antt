-- ===== src/PortMapping/Leak.antt =====
-- networking/portmapping/host_portmapping_linux.go: what a failed setup leaves in the table of
-- used host ports.
use hyperd.Prelude.{
  ℕ, ◌≡◌, refl, sym, ap, ◌∙◌, ◌⊎◌, inl, inr, none, some, List, [], ◌∷◌, ◌++◌, arith, Result, ok,
  err, Option-cases,
}
use hyperd.Prelude.Text.{Text}
use hyperd.PortMapping.{PortMapper, Error, PortMapping, Args, generate_iptables_args, port_set}
use hyperd.PortMapping.Setup.{
  Iptables, allocate_ports, setup_settled, setup_one, setup_loop, revert, revert_on_error,
  setup_iptables_port_maps,
}
use hyperd.PortMapping.Table.{AllOrNone, user, allocate_ports_atomic}

-- The two tables have the same users.
abbrev pub SameUsers : PortMapper → PortMapper → Type 0
SameUsers p p' = (proto : Text) (k : ℕ) → user proto k p' ≡ user proto k p

allocate_ports-SameUsers :
    (ip : Text) (m : PortMapping) (p : PortMapper) (x : Error)
    → (allocate_ports ip m p).1 ≡ some x
    → SameUsers p (allocate_ports ip m p).0
allocate_ports-SameUsers ip m p x h = from_outcome (allocate_ports_atomic ip m p)
  where
    from_outcome : AllOrNone ip m p (allocate_ports ip m p) → SameUsers p (allocate_ports ip m p).0
    from_outcome (other, inl (e, fresh, entered)) = absurd (ground arith)
    from_outcome (other, inr (k, u, a, b, held, e, same)) =
        λ proto l. unfold user port_set in ground (arith, same l, other)

module _ (t : Iptables) where
  open t use {W, port_map_exists, nat_rules, raw, operate_delete}

  setup_settled-table :
      (ip : Text) (m : PortMapping) (nat filter : Args) (p : PortMapper) (w : W)
      → let r = setup_settled t ip m nat filter p w in
        (r.0 ≡ p) ⊎ ((r.0 ≡ (allocate_ports ip m p).0) × (r.3 ≡ (allocate_ports ip m p).1))
  unfolding setup_settled
  setup_settled-table ip m nat filter p w = ground arith

  setup_settled-SameUsers :
      (ip : Text) (m : PortMapping) (nat filter : Args) (p : PortMapper) (w : W) (x : Error)
      → (setup_settled t ip m nat filter p w).3 ≡ some x
      → SameUsers p (setup_settled t ip m nat filter p w).0
  setup_settled-SameUsers ip m nat filter p w x h = elim (setup_settled-table ip m nat filter p w) [
    | inl e ↦ λ proto k. ap (user proto k) e
    | inr (e, f) ↦
        λ proto k. ap (user proto k) e ∙ allocate_ports-SameUsers ip m p x (sym f ∙ h) proto k
  ]

  setup_one-SameUsers :
      (ip : Text) (m : PortMapping) (p : PortMapper) (w : W) (x : Error)
      → (setup_one t ip m p w).3 ≡ some x
      → SameUsers p (setup_one t ip m p w).0
  unfolding setup_one
  setup_one-SameUsers ip m p w x = of_args (generate_iptables_args ip m) refl
    where
      of_args :
          (r : Result Error (PortMapping × Args × Args))
          → generate_iptables_args ip m ≡ r
          → (setup_one t ip m p w).3 ≡ some x
          → SameUsers p (setup_one t ip m p w).0
      of_args (ok (m', nat, filter)) e =
          rw (e, setup_one) (setup_settled-SameUsers ip m' nat filter p w x)
      of_args (err y) e = rw (e, setup_one) (λ h proto k. refl)

  -- The steps of the loop, as equations.
  setup_loop-ok :
      (ip : Text) (m : PortMapping) (ms : List PortMapping) (rules : List Args) (p : PortMapper)
      (w : W)
      → (setup_one t ip m p w).3 ≡ none
      → setup_loop t ip (m ∷ ms) rules p w
        ≡ setup_loop t ip ms
            (rules ++ (setup_one t ip m p w).2)
            (setup_one t ip m p w).0
            (setup_one t ip m p w).1
  unfolding setup_loop
  setup_loop-ok ip m ms rules p w e = rw (e, setup_loop)

  setup_loop-fail :
      (ip : Text) (m : PortMapping) (ms : List PortMapping) (rules : List Args) (p : PortMapper)
      (w : W) (x : Error)
      → (setup_one t ip m p w).3 ≡ some x
      → setup_loop t ip (m ∷ ms) rules p w ≡ (
        (setup_one t ip m p w).0,
        (setup_one t ip m p w).1,
        rules ++ (setup_one t ip m p w).2,
        some x,
      )
  unfolding setup_loop
  setup_loop-fail ip m ms rules p w x e = rw (e, setup_loop)

  setup_loop-append :
      (ip : Text) (pre rest : List PortMapping) (rules rules' : List Args) (p p' : PortMapper)
      (w w' : W)
      → setup_loop t ip pre rules p w ≡ (p', w', rules', none)
      → setup_loop t ip (pre ++ rest) rules p w ≡ setup_loop t ip rest rules' p' w'
  setup_loop-append ip [] rest rules rules' p p' w w' h = unfold setup_loop in cc
  setup_loop-append ip (m ∷ pre) rest rules rules' p p' w w' h =
      elim (Option-cases (setup_one t ip m p w).3) [
        | inl e ↦
            setup_loop-ok ip m (pre ++ rest) rules p w e
            ∙ setup_loop-append ip pre rest _ rules' _ p' _ w'
                (sym (setup_loop-ok ip m pre rules p w e) ∙ h)
        | inr (x, e) ↦ absurd (cc (sym (setup_loop-fail ip m pre rules p w x e) ∙ h))
      ]

  finish_fail :
      (ip : Text) (ms : List PortMapping) (p p' : PortMapper) (w w' : W) (rules : List Args)
      (x : Error)
      → setup_loop t ip ms [] p w ≡ (p', w', rules, some x)
      → setup_iptables_port_maps t ip ms p w ≡ (p', revert t rules w', some x)
  unfolding setup_iptables_port_maps
  finish_fail ip ms p p' w w' rules x e = ap (revert_on_error t) e

  -- When the setup of a list of mappings fails at the mapping `m`, the error is returned and the
  -- rules of the mappings before it are reverted, but the host ports that these have allocated
  -- stay allocated: every port of every protocol has the user that it had just before `m`.
  pub setup_iptables_port_maps_leaks :
      (ip : Text) (pre post : List PortMapping) (m : PortMapping) (p p1 : PortMapper) (w w1 : W)
      (rules : List Args) (x : Error)
      → setup_loop t ip pre [] p w ≡ (p1, w1, rules, none)
      → (setup_one t ip m p1 w1).3 ≡ some x
      → ((setup_iptables_port_maps t ip (pre ++ m ∷ post) p w).2 ≡ some x)
        × SameUsers p1 (setup_iptables_port_maps t ip (pre ++ m ∷ post) p w).0
  setup_iptables_port_maps_leaks ip pre post m p p1 w w1 rules x h e =
      let r = finish_fail ip (pre ++ m ∷ post) p _ w _ _ x (
        setup_loop-append ip pre (m ∷ post) [] rules p p1 w w1 h
        ∙ setup_loop-fail ip m post rules p1 w1 x e) in
      (
        ap (λ s. s.2) r,
        λ proto k. ap (λ s. user proto k s.0) r ∙ setup_one-SameUsers ip m p1 w1 x e proto k,
      )
