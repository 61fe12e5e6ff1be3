-- ===== src/Registry/Atomic.antt =====
-- daemon/pod/provision.go: reserveNames and releaseNames. A reservation of a pod with all its
-- containers is all or nothing, and leaves other pods' reservations alone.
use hyperd.Prelude.{
  ℕ, String, ◌≡◌, refl, sym, ap, ◌≢◌, ◌⊎◌, inl, inr, true, false, Option, none, some, List, [], ◌∷◌,
  ◌++◌, arith, lookup, insert, All, ◌==◌, ==_iff, string_eq, lookup-insert, Option-cases,
  Bool-cases, subst, nat_eq,
}
use hyperd.Registry.{
  PodList, Heap, Error, ContainerSpec, pod_in_use, in_use, reserve_container, release_names,
  reserve_each, reserve_names,
}
use hyperd.Registry.Isolation.{
  Keeps, Keeps-refl, Keeps-trans, Reserved, reserve_container-Keeps, reserve_container-Reserved,
  reserve_container-pods,
}
use hyperd.Registry.Keeping.{
  reserve_container-Adds, Adds-Apart, release_names-Keeps, Reserved-OursOrFree, Apart,
}
use hyperd.Registry.Freeing.{release_each-Gone, release-Gone, release-pods, Gone}
use hyperd.Registry.Steps.{
  reserve_each-ok, reserve_each-fail, reserve_each-nil, reserve_names-refused, reserve_names-free,
}

All-Reserved :
    (ds : List ContainerSpec) (pod : String) (pl pl' : PodList)
    → Keeps pod pl pl'
    → All (Reserved pod pl) ds
    → All (Reserved pod pl') ds
All-Reserved [] pod pl pl' k h = tt
All-Reserved (d ∷ ds) pod pl pl' k h =
    ((k.names d.name h.0.0, id_part (Bool-cases (d.id == ""))), All-Reserved ds pod pl pl' k h.1)
  where
    id_part :
        ((d.id == "") ≡ true) ⊎ ((d.id == "") ≡ false)
        → (d.id ≡ "") ⊎ (lookup d.id pl'.containers ≡ some pod)
    id_part (inl e) = inl ((==_iff d.id "").0 e)
    id_part (inr e) = elim h.0.1 [
      | inl z ↦ inl z
      | inr z ↦ inr (k.ids d.id (λ y. ground (arith, ==_iff d.id "")) z)
    ]

-- What a call on the registry made of the containers `done` and `cs`.
abbrev Settled : String → List ContainerSpec → List ContainerSpec → PodList × Option Error → Type 0
Settled pod done cs r =
    ((r.1 ≡ none) × All (Reserved pod r.0) done × All (Reserved pod r.0) cs)
    ⊎ ((e : Error) × (pre : List ContainerSpec) × (c : ContainerSpec) × (post : List ContainerSpec)
        × (r.1 ≡ some e)
        × (cs ≡ pre ++ c ∷ post)
        × All (Gone r.0) done
        × All (Gone r.0) pre
        × (lookup pod r.0.pods ≡ none))

Settled-cons :
    (pod : String) (done : List ContainerSpec) (c : ContainerSpec) (cs : List ContainerSpec)
    (r : PodList × Option Error)
    → Settled pod (c ∷ done) cs r
    → Settled pod done (c ∷ cs) r
Settled-cons pod done c cs r (inl (e, d, rest)) = inl (e, d.1, (d.0, rest))
Settled-cons pod done c cs r (inr (e, pre, x, post, q, eq, d, g, l)) =
    inr (e, c ∷ pre, x, post, q, ap (λ t. c ∷ t) eq, d.1, (d.0, g), l)

reserve_each-Settled :
    (h : Heap) (p : ℕ) (done cs : List ContainerSpec) (pl : PodList)
    → All (Reserved (h p).id pl) done
    → Settled (h p).id done cs (reserve_each h p done cs pl)
unfolding release_names
reserve_each-Settled h p done [] pl d = rw (reserve_each-nil h p done pl) (inl (refl, d, tt))
reserve_each-Settled h p done (c ∷ cs) pl d =
    elim (Option-cases (reserve_container c.id c.name (h p).id pl).1) [
      | inl e ↦ subst (Settled (h p).id done (c ∷ cs)) (sym (reserve_each-ok h p done c cs pl e)) (
          Settled-cons (h p).id done c cs _ (
            reserve_each-Settled h p (c ∷ done) cs _ (
              reserve_container-Reserved c (h p).id pl e,
              All-Reserved done (h p).id pl _
                  (reserve_container-Keeps c.id c.name (h p).id (h p).id pl) d,
            )))
      | inr (x, e) ↦
          subst (Settled (h p).id done (c ∷ cs)) (sym (reserve_each-fail h p done c cs pl x e)) (
            inr (
              x,
              [],
              c,
              cs,
              refl,
              refl,
              release-Gone h (h p).id done _ (release_each-Gone done _),
              tt,
              release-pods h (h p).id _,
            ))
    ]

-- Reserving a pod and the containers of its spec is all or nothing. Either it returns no error,
-- and every container's name and non-empty id are reserved to the pod. Or the pod's name is in
-- use by another pod object and the registry is as before. Or a container is refused, and then
-- the pod is not in the registry, and no name or non-empty id of the containers before that one
-- is reserved to anybody.
pub reserve_names_atomic :
    (h : Heap) (p : ℕ) (cs : List ContainerSpec) (pl : PodList)
    → (reserve_names h p cs pl ≡ (pl, some pod_in_use))
      ⊎ (((reserve_names h p cs pl).1 ≡ none)
          × All (Reserved (h p).id (reserve_names h p cs pl).0) cs)
      ⊎ ((e : Error) × (pre : List ContainerSpec) × (c : ContainerSpec) × (post : List
            ContainerSpec)
          × ((reserve_names h p cs pl).1 ≡ some e)
          × (cs ≡ pre ++ c ∷ post)
          × All (Gone (reserve_names h p cs pl).0) pre
          × (lookup (h p).id (reserve_names h p cs pl).0.pods ≡ none))
reserve_names_atomic h p cs pl = elim (Bool-cases (in_use (lookup (h p).id pl.pods) p)) [
  | inl e ↦ rw (reserve_names-refused h p cs pl e) (inl refl)
  | inr e ↦ rw (reserve_names-free h p cs pl e) (inr (split (reserve_each-Settled h p [] cs _ tt)))
]
  where
    added : PodList
    added = record pl { pods = insert (h p).id p pl.pods }

    split :
        Settled (h p).id [] cs (reserve_each h p [] cs added)
        → (((reserve_each h p [] cs added).1 ≡ none)
            × All (Reserved (h p).id (reserve_each h p [] cs added).0) cs)
          ⊎ ((e : Error) × (pre : List ContainerSpec) × (c : ContainerSpec) × (post : List
                ContainerSpec)
              × ((reserve_each h p [] cs added).1 ≡ some e)
              × (cs ≡ pre ++ c ∷ post)
              × All (Gone (reserve_each h p [] cs added).0) pre
              × (lookup (h p).id (reserve_each h p [] cs added).0.pods ≡ none))
    split (inl (e, _, all)) = inl (e, all)
    split (inr (e, pre, c, post, q, eq, _, g, l)) = inr (e, pre, c, post, q, eq, g, l)

reserve_each-Keeps :
    (h : Heap) (p : ℕ) (done cs : List ContainerSpec) (q : String) (pl : PodList)
    → q ≢ (h p).id
    → lookup (h p).id pl.pods ≡ some p
    → All (Reserved (h p).id pl) done
    → Apart (h p) q pl
    → Keeps q pl (reserve_each h p done cs pl).0
reserve_each-Keeps h p done [] q pl ne e d a = rw (reserve_each-nil h p done pl) (Keeps-refl q pl)
reserve_each-Keeps h p done (c ∷ cs) q pl ne e d a =
    elim (Option-cases (reserve_container c.id c.name (h p).id pl).1) [
      | inl ok ↦ rw (reserve_each-ok h p done c cs pl ok) (
          Keeps-trans kept (
            reserve_each-Keeps h p (c ∷ done) cs q next ne e'
              (reserve_container-Reserved c (h p).id pl ok, d') a'))
      | inr (x, bad) ↦ rw (reserve_each-fail h p done c cs pl x bad) (
          Keeps-trans kept (
            release_names-Keeps h p done q next ne e' (Reserved-OursOrFree done (h p).id next d')
              a'))
    ]
  where
    next : PodList
    next = (reserve_container c.id c.name (h p).id pl).0

    kept : Keeps q pl next
    kept = reserve_container-Keeps c.id c.name (h p).id q pl

    e' : lookup (h p).id next.pods ≡ some p
    e' = rw (reserve_container-pods c.id c.name (h p).id pl) e

    d' : All (Reserved (h p).id next) done
    d' =
        All-Reserved done (h p).id pl next
          (reserve_container-Keeps c.id c.name (h p).id (h p).id pl) d

    a' : Apart (h p) q next
    a' = Adds-Apart (h p) ne (reserve_container-Adds c.id c.name (h p).id pl) a

-- Whether it succeeds or fails and rolls back, reserving a pod with its containers keeps every
-- name and non-empty id that another pod `q` has, if none of the containers that the pod object
-- itself already holds bears one that is reserved to `q`.
pub reserve_names-Keeps :
    (h : Heap) (p : ℕ) (cs : List ContainerSpec) (q : String) (pl : PodList)
    → q ≢ (h p).id
    → Apart (h p) q pl
    → Keeps q pl (reserve_names h p cs pl).0
reserve_names-Keeps h p cs q pl ne a = elim (Bool-cases (in_use (lookup (h p).id pl.pods) p)) [
  | inl e ↦ rw (reserve_names-refused h p cs pl e) (Keeps-refl q pl)
  | inr e ↦
      rw (reserve_names-free h p cs pl e)
        (reframe (reserve_each-Keeps h p [] cs q added ne here tt a'))
]
  where
    added : PodList
    added = record pl { pods = insert (h p).id p pl.pods }

    here : lookup (h p).id added.pods ≡ some p
    here = ground (arith, lookup-insert (h p).id (h p).id p pl.pods, ==_iff (h p).id (h p).id)

    a' : Apart (h p) q added
    a' = record { names = a.names; ids = a.ids }

    reframe : {r : PodList} → Keeps q added r → Keeps q pl r
    reframe k = record { names = k.names; ids = k.ids }
