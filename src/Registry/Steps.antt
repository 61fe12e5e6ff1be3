-- ===== src/Registry/Steps.antt =====
-- daemon/pod/provision.go: the steps of the loop of reserveNames, as equations.
use hyperd.Prelude.{
  ℕ, ◌≡◌, refl, true, false, none, some, List, [], ◌∷◌, arith, lookup, insert, string_eq, nat_eq,
}
use hyperd.Registry.{
  PodList, Heap, Error, ContainerSpec, pod_in_use, in_use, reserve_container, release_names,
  reserve_each, reserve_names,
}

-- The steps of the loop, as equations.
module _ (h : Heap) (p : ℕ) (done : List ContainerSpec) (c : ContainerSpec)
    (cs : List ContainerSpec) (pl : PodList) where
  pub reserve_each-ok :
      (reserve_container c.id c.name (h p).id pl).1 ≡ none
      → reserve_each h p done (c ∷ cs) pl
        ≡ reserve_each h p (c ∷ done) cs (reserve_container c.id c.name (h p).id pl).0
  unfolding reserve_each
  reserve_each-ok e = rw (e, reserve_each)

  pub reserve_each-fail :
      (x : Error)
      → (reserve_container c.id c.name (h p).id pl).1 ≡ some x
      → reserve_each h p done (c ∷ cs) pl
        ≡ (release_names h p done (reserve_container c.id c.name (h p).id pl).0, some x)
  unfolding reserve_each
  reserve_each-fail x e = rw (e, reserve_each)

pub reserve_each-nil :
    (h : Heap) (p : ℕ) (done : List ContainerSpec) (pl : PodList)
    → reserve_each h p done [] pl ≡ (pl, none)
unfolding reserve_each
reserve_each-nil h p done pl = refl

module _ (h : Heap) (p : ℕ) (cs : List ContainerSpec) (pl : PodList) where
  pub reserve_names-refused :
      in_use (lookup (h p).id pl.pods) p ≡ true → reserve_names h p cs pl ≡ (pl, some pod_in_use)
  unfolding reserve_names
  reserve_names-refused e = ground arith

  pub reserve_names-free :
      in_use (lookup (h p).id pl.pods) p ≡ false
      → reserve_names h p cs pl
        ≡ reserve_each h p [] cs (record pl { pods = insert (h p).id p pl.pods })
  unfolding reserve_names
  reserve_names-free e = ground arith
