-- ===== src/PortMapping/Table.antt =====
-- networking/portmapping/portmapper/portmapper.go and the allocation loops of
-- host_portmapping_linux.go: the table of used host ports as a map from ports to their users.
use hyperd.Prelude.{
  ℕ, zero, suc, ◌+◌, ◌-◌, ◌≤◌, ◌<◌, ◌≡◌, refl, ◌⊎◌, inl, inr, true, false, ◌&&◌, Option, none, some,
  arith, if◌then◌else◌, ltb, leb, nat_beq, lookup, lookup-insert, lookup-delete, nat_eq,
  Option-cases, Bool-cases, ◌∙◌, sym, subst,
}
use hyperd.Prelude.Text.{Text}
use hyperd.PortMapping.{
  PortMap, PortSet, PortMapper, Error, port_used, PortMapping, is_udp, port_set, allocate_map,
  release_map,
}
use hyperd.PortMapping.Setup.{allocate_loop, release_down, roll_back, allocate_ports}

-- Who uses the host port `k` of a protocol.
unfoldable pub user : Text → ℕ → PortMapper → Option PortMap
user proto k p = lookup k (port_set proto p)

-- The other protocol's set, of which the operations on `proto` do not speak.
abbrev pub other_set : Text → PortMapper → PortSet
other_set proto p = if is_udp proto then p.tcp_map else p.udp_map

user-release_map :
    (proto : Text) (i k : ℕ) (p : PortMapper)
    → user proto k (release_map proto i p) ≡ (if nat_beq i k then none else user proto k p)
unfolding user release_map
user-release_map proto i k p =
    ground (arith, lookup-delete i k p.udp_map, lookup-delete i k p.tcp_map)

-- Allocating a free port enters its user.
user-allocate_map :
    (proto ip : Text) (i j k : ℕ) (p : PortMapper)
    → user proto i p ≡ none
    → user proto k (allocate_map proto i ip j p).0 ≡ (
        if nat_beq i k
        then some (record { container_ip = ip; container_port = j })
        else user proto k p)
unfolding user allocate_map
user-allocate_map proto ip i j k p h = ground (
  arith,
  lookup-insert i k (record { container_ip = ip; container_port = j }) p.udp_map,
  lookup-insert i k (record { container_ip = ip; container_port = j }) p.tcp_map,
)

allocate_map-free :
    (proto ip : Text) (i j : ℕ) (p : PortMapper)
    → user proto i p ≡ none
    → (allocate_map proto i ip j p).1 ≡ none
unfolding user allocate_map
allocate_map-free proto ip i j p h = ground arith

allocate_map-used :
    (proto ip : Text) (i j : ℕ) (p : PortMapper) (u : PortMap)
    → user proto i p ≡ some u
    → allocate_map proto i ip j p ≡ (p, some (port_used i u.container_ip u.container_port))
unfolding user allocate_map
allocate_map-used proto ip i j p u h = ground arith

allocate_map-other :
    (proto ip : Text) (i j : ℕ) (p : PortMapper)
    → other_set proto (allocate_map proto i ip j p).0 ≡ other_set proto p
unfolding allocate_map
allocate_map-other proto ip i j p = ground arith

-- What the allocation loop has done when it stops at `stop`.
record Allocated (proto ip : Text) (i j stop : ℕ) (p p' : PortMapper) : Type 0 where
  begun : i ≤ stop
  entered :
      (k : ℕ)
      → user proto k p' ≡ (
          if leb i k && ltb k stop
          then some (record { container_ip = ip; container_port = j + (k - i) })
          else user proto k p)
  fresh : (k : ℕ) → i ≤ k → k < stop → user proto k p ≡ none
  other : other_set proto p' ≡ other_set proto p

Allocated-nil : (proto ip : Text) (i j : ℕ) (p : PortMapper) → Allocated proto ip i j i p p
Allocated-nil proto ip i j p = record {
  begun = omega arith;
  entered = λ k. ground arith;
  fresh = λ k a b. absurd (omega arith);
  other = refl;
}

Allocated-cons :
    (proto ip : Text) (i j stop : ℕ) (p p' : PortMapper)
    → user proto i p ≡ none
    → Allocated proto ip (i + 1) (j + 1) stop (allocate_map proto i ip j p).0 p'
    → Allocated proto ip i j stop p p'
Allocated-cons proto ip i j stop p p' h a = record {
  begun = let b = a.begun in omega arith;
  entered = λ k. entered k;
  fresh = λ k b c. fresh k b c;
  other = a.other ∙ allocate_map-other proto ip i j p;
}
  where
    entered :
        (k : ℕ)
        → user proto k p' ≡ (
            if leb i k && ltb k stop
            then some (record { container_ip = ip; container_port = j + (k - i) })
            else user proto k p)
    entered k = ground (arith, a.begun, a.entered k, user-allocate_map proto ip i j k p h)

    fresh : (k : ℕ) → i ≤ k → k < stop → user proto k p ≡ none
    fresh k b c = elim (Bool-cases (nat_beq i k)) [
      | inl e ↦ ground arith
      | inr e ↦ ground (arith, a.fresh k (ground arith) c, user-allocate_map proto ip i j k p h)
    ]

-- How the allocation loop ends: with all `n` ports, or at the first one that is used.
abbrev Ended : Text → Text → ℕ → ℕ → ℕ → PortMapper → ℕ × PortMapper × Option Error → Type 0
Ended proto ip n i j p (stop, p', e) =
    Allocated proto ip i j stop p p'
    × (((e ≡ none) × (stop ≡ i + n))
        ⊎ ((u : PortMap) × (user proto stop p ≡ some u)
            × (stop < i + n)
            × (e ≡ some (port_used stop u.container_ip u.container_port))))

allocate_loop-free :
    (proto ip : Text) (n i j : ℕ) (p : PortMapper)
    → user proto i p ≡ none
    → allocate_loop proto ip (suc n) i j p
      ≡ allocate_loop proto ip n (i + 1) (j + 1) (allocate_map proto i ip j p).0
unfolding allocate_loop
allocate_loop-free proto ip n i j p h = rw (allocate_map-free proto ip i j p h, allocate_loop)

allocate_loop-used :
    (proto ip : Text) (n i j : ℕ) (p : PortMapper) (u : PortMap)
    → user proto i p ≡ some u
    → allocate_loop proto ip (suc n) i j p
      ≡ (i, p, some (port_used i u.container_ip u.container_port))
unfolding allocate_loop
allocate_loop-used proto ip n i j p u h = ground (arith, allocate_map-used proto ip i j p u h)

Ended-cons :
    (proto ip : Text) (n i j : ℕ) (p : PortMapper) (r : ℕ × PortMapper × Option Error)
    → user proto i p ≡ none
    → Ended proto ip n (i + 1) (j + 1) (allocate_map proto i ip j p).0 r
    → Ended proto ip (suc n) i j p r
Ended-cons proto ip n i j p (stop, p', e) h (a, inl (x, y)) =
    (Allocated-cons proto ip i j stop p p' h a, inl (x, omega arith))
Ended-cons proto ip n i j p (stop, p', e) h (a, inr (u, held, l, x)) = (
  Allocated-cons proto ip i j stop p p' h a,
  inr (u, ground (arith, a.begun, user-allocate_map proto ip i j stop p h), omega arith, x),
)

allocate_loop-Ended :
    (proto ip : Text) (n i j : ℕ) (p : PortMapper)
    → Ended proto ip n i j p (allocate_loop proto ip n i j p)
unfolding allocate_loop
allocate_loop-Ended proto ip zero i j p = (Allocated-nil proto ip i j p, inl (refl, omega arith))
allocate_loop-Ended proto ip (suc n) i j p = elim (Option-cases (user proto i p)) [
  | inl h ↦ subst (Ended proto ip (suc n) i j p) (sym (allocate_loop-free proto ip n i j p h)) (
      Ended-cons proto ip n i j p _ h
        (allocate_loop-Ended proto ip n (i + 1) (j + 1) (allocate_map proto i ip j p).0))
  | inr (u, h) ↦
      subst (Ended proto ip (suc n) i j p) (sym (allocate_loop-used proto ip n i j p u h))
        (Allocated-nil proto ip i j p, inr (u, h, omega arith, refl))
]

user-release_down :
    (proto : Text) (begin n k : ℕ) (p : PortMapper)
    → user proto k (release_down proto begin n p)
      ≡ (if leb begin k && ltb k (begin + n) then none else user proto k p)
unfolding release_down
user-release_down proto begin zero k p = ground arith
user-release_down proto begin (suc n) k p = ground (
  arith,
  user-release_down proto begin n k (release_map proto (begin + n) p),
  user-release_map proto (begin + n) k p,
)

release_down-other :
    (proto : Text) (begin n : ℕ) (p : PortMapper)
    → other_set proto (release_down proto begin n p) ≡ other_set proto p
unfolding release_down release_map
release_down-other proto begin zero p = refl
release_down-other proto begin (suc n) p =
    release_down-other proto begin n (release_map proto (begin + n) p) ∙ ground arith

-- The two outcomes of an allocation of the host ports of `m`.
abbrev pub AllOrNone : Text → PortMapping → PortMapper → PortMapper × Option Error → Type 0
AllOrNone ip m p (p', e) =
    (other_set m.protocol p' ≡ other_set m.protocol p)
    × (((e ≡ none)
          × ((k : ℕ) → m.from_ports.begin ≤ k → k ≤ m.from_ports.end → user m.protocol k p ≡ none)
          × ((k : ℕ)
              → user m.protocol k p' ≡ (
                  if leb m.from_ports.begin k && leb k m.from_ports.end
                  then some (record {
                    container_ip = ip;
                    container_port = m.to_ports.begin + (k - m.from_ports.begin);
                  })
                  else user m.protocol k p)))
        ⊎ ((k : ℕ) × (u : PortMap) × (m.from_ports.begin ≤ k)
            × (k ≤ m.from_ports.end)
            × (user m.protocol k p ≡ some u)
            × (e ≡ some (port_used k u.container_ip u.container_port))
            × ((l : ℕ) → user m.protocol l p' ≡ user m.protocol l p)))

roll_back-AllOrNone :
    (ip : Text) (m : PortMapping) (p : PortMapper) (r : ℕ × PortMapper × Option Error)
    → Ended m.protocol ip
        (m.from_ports.end + 1 - m.from_ports.begin)
        m.from_ports.begin
        m.to_ports.begin
        p
        r
    → AllOrNone ip m p (roll_back m.protocol m.from_ports.begin r)
unfolding roll_back
roll_back-AllOrNone ip m p (stop, p', none) (a, inl (x, y)) =
    (a.other, inl (refl, λ k b c. a.fresh k b (omega arith), λ k. ground (arith, a.entered k)))
roll_back-AllOrNone ip m p (stop, p', none) (a, inr (u, held, l, x)) = absurd (ground arith)
roll_back-AllOrNone ip m p (stop, p', some e) (a, inl (x, y)) = absurd (ground arith)
roll_back-AllOrNone ip m p (stop, p', some e) (a, inr (u, held, l, x)) = (
  release_down-other m.protocol m.from_ports.begin (stop - m.from_ports.begin) p' ∙ a.other,
  inr (
    stop,
    u,
    a.begun,
    let b = a.begun in omega arith,
    held,
    x,
    λ k. restored k (Bool-cases (leb m.from_ports.begin k && ltb k stop)),
  ),
)
  where
    restored :
        (k : ℕ)
        → ((leb m.from_ports.begin k && ltb k stop) ≡ true)
          ⊎ ((leb m.from_ports.begin k && ltb k stop) ≡ false)
        → user m.protocol k
            (release_down m.protocol m.from_ports.begin (stop - m.from_ports.begin) p')
          ≡ user m.protocol k p
    restored k (inl c) = ground (
      arith,
      user-release_down m.protocol m.from_ports.begin (stop - m.from_ports.begin) k p',
      a.begun,
      a.fresh k (ground arith) (ground arith),
    )
    restored k (inr c) = ground (
      arith,
      user-release_down m.protocol m.from_ports.begin (stop - m.from_ports.begin) k p',
      a.begun,
      a.entered k,
    )

-- The host ports of a mapping are allocated all or none. If all of them, from the first to the
-- last, are free, no error is returned, they are entered with the container's address and the
-- ports that face them, and the rest of the table is as it was. Otherwise the error names one of
-- them that is used and its user, and every port has the user that it had. In both cases the
-- other protocol's table is as it was.
pub allocate_ports_atomic :
    (ip : Text) (m : PortMapping) (p : PortMapper) → AllOrNone ip m p (allocate_ports ip m p)
unfolding allocate_ports
allocate_ports_atomic ip m p = roll_back-AllOrNone ip m p _ (
    allocate_loop-Ended m.protocol ip (m.from_ports.end + 1 - m.from_ports.begin) m.from_ports.begin
      m.to_ports.begin p)
