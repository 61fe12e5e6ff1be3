-- ===== src/Registry/Keeping.antt =====
-- daemon/pod/podlist.go, provision.go: releasing and reserving leave other pods' keys alone.
use hyperd.Prelude.{
  ℕ, String, ◌≡◌, refl, ◌≢◌, ◌⊎◌, inl, false, none, some, List, [], ◌∷◌, arith, lookup, any, All,
  ◌==◌, ==_iff, string_eq, lookup-insert, lookup-delete, lookup-delete_all, nat_eq,
}
use hyperd.Registry.{
  PodList, Heap, Pod, ContainerSpec, container_ids, container_names_of, reserve_container, release,
  release_container, release_each, release_names,
}
use hyperd.Registry.Isolation.{Keeps, Keeps-refl, Keeps-trans, Reserved}

-- None of the pod's own containers bears an id or a name that is reserved to `q`.
pub record Apart (p : Pod) (q : String) (pl : PodList) : Type 0 where
  pub names :
      (k : String)
      → lookup k pl.container_names ≡ some q
      → any (λ n. n == k) (container_names_of p) ≡ false
  pub ids :
      (k : String) → lookup k pl.containers ≡ some q → any (λ n. n == k) (container_ids p) ≡ false

-- The container's keys are reserved to the pod or to nobody.
abbrev OursOrFree : String → PodList → ContainerSpec → Type 0
OursOrFree pod pl c =
    ((lookup c.name pl.container_names ≡ some pod) ⊎ (lookup c.name pl.container_names ≡ none))
    × ((c.id ≡ "") ⊎ ((lookup c.id pl.containers ≡ some pod) ⊎ (lookup c.id pl.containers ≡ none)))

release_container-OursOrFree :
    (c d : ContainerSpec) (pod : String) (pl : PodList)
    → OursOrFree pod pl d
    → OursOrFree pod (release_container c.id c.name pl) d
unfolding release_container
release_container-OursOrFree c d pod pl h = (
  ground (arith, lookup-delete c.name d.name pl.container_names),
  ground (arith, lookup-delete c.id d.id pl.containers),
)

release_free-Keeps :
    (c : ContainerSpec) (pod q : String) (pl : PodList)
    → q ≢ pod
    → OursOrFree pod pl c
    → Keeps q pl (release_container c.id c.name pl)
unfolding release_container
release_free-Keeps c pod q pl ne r = record {
  names = λ k h. ground (arith, lookup-delete c.name k pl.container_names, ==_iff c.name k);
  ids = λ k n h. ground (arith, lookup-delete c.id k pl.containers, ==_iff c.id k);
}

All-release :
    (c : ContainerSpec) (ds : List ContainerSpec) (pod : String) (pl : PodList)
    → All (OursOrFree pod pl) ds
    → All (OursOrFree pod (release_container c.id c.name pl)) ds
All-release c [] pod pl h = tt
All-release c (d ∷ ds) pod pl h =
    (release_container-OursOrFree c d pod pl h.0, All-release c ds pod pl h.1)

release_each-Keeps :
    (ds : List ContainerSpec) (pod q : String) (pl : PodList)
    → q ≢ pod
    → All (OursOrFree pod pl) ds
    → Keeps q pl (release_each ds pl)
unfolding release_each
release_each-Keeps [] pod q pl ne h = Keeps-refl q pl
release_each-Keeps (d ∷ ds) pod q pl ne h =
    Keeps-trans (release_free-Keeps d pod q pl ne h.0)
      (release_each-Keeps ds pod q _ ne (All-release d ds pod pl h.1))

release-Keeps :
    (h : Heap) (p : ℕ) (id q : String) (pl : PodList)
    → lookup id pl.pods ≡ some p
    → Apart (h p) q pl
    → Keeps q pl (release h id pl)
unfolding release
release-Keeps h p id q pl e a = record {
  names = λ k held.
      rw (e, release)
        (ground (
          arith,
          lookup-delete_all (container_names_of (h p)) k pl.container_names,
          a.names k held,
        ));
  ids = λ k n held.
      rw (e, release)
        (ground (arith, lookup-delete_all (container_ids (h p)) k pl.containers, a.ids k held));
}

release_each-pods : (ds : List ContainerSpec) (pl : PodList) → (release_each ds pl).pods ≡ pl.pods
unfolding release_each
release_each-pods [] pl = refl
release_each-pods (d ∷ ds) pl = release_each-pods ds (release_container d.id d.name pl)

-- What `q` has now it has already had: the keys that are free or ours stay so.
pub record Adds (pod : String) (pl pl' : PodList) : Type 0 where
  pub names :
      (k q : String)
      → q ≢ pod
      → lookup k pl'.container_names ≡ some q
      → lookup k pl.container_names ≡ some q
  pub ids :
      (k q : String) → q ≢ pod → lookup k pl'.containers ≡ some q → lookup k pl.containers ≡ some q

Adds-trans : {pod : String} {a b c : PodList} → Adds pod a b → Adds pod b c → Adds pod a c
Adds-trans f g = record {
  names = λ k q n h. f.names k q n (g.names k q n h);
  ids = λ k q n h. f.ids k q n (g.ids k q n h);
}

pub reserve_container-Adds :
    (id name pod : String) (pl : PodList) → Adds pod pl (reserve_container id name pod pl).0
unfolding reserve_container
reserve_container-Adds id name pod pl = record { names = names; ids = ids }
  where
    names :
        (k q : String)
        → q ≢ pod
        → lookup k (reserve_container id name pod pl).0.container_names ≡ some q
        → lookup k pl.container_names ≡ some q
    names k q ne h = ground (arith, lookup-insert name k pod pl.container_names)

    ids :
        (k q : String)
        → q ≢ pod
        → lookup k (reserve_container id name pod pl).0.containers ≡ some q
        → lookup k pl.containers ≡ some q
    ids k q ne h = ground (arith, lookup-insert id k pod pl.containers)

release_each-Adds :
    (ds : List ContainerSpec) (pod : String) (pl : PodList) → Adds pod pl (release_each ds pl)
unfolding release_each release_container
release_each-Adds [] pod pl = record { names = λ k q n h. h; ids = λ k q n h. h }
release_each-Adds (d ∷ ds) pod pl = Adds-trans one (release_each-Adds ds pod _)
  where
    one : Adds pod pl (release_container d.id d.name pl)
    one = record {
      names = λ k q n h. ground (arith, lookup-delete d.name k pl.container_names);
      ids = λ k q n h. ground (arith, lookup-delete d.id k pl.containers);
    }

pub Adds-Apart :
    {pod q : String} {a b : PodList} (p : Pod) → q ≢ pod → Adds pod a b → Apart p q a → Apart p q b
Adds-Apart {q = q} p ne f a = record {
  names = λ k h. a.names k (f.names k q ne h);
  ids = λ k h. a.ids k (f.ids k q ne h);
}

pub release_names-Keeps :
    (h : Heap) (p : ℕ) (ds : List ContainerSpec) (q : String) (pl : PodList)
    → q ≢ (h p).id
    → lookup (h p).id pl.pods ≡ some p
    → All (OursOrFree (h p).id pl) ds
    → Apart (h p) q pl
    → Keeps q pl (release_names h p ds pl)
unfolding release_names
release_names-Keeps h p ds q pl ne e r a = Keeps-trans (release_each-Keeps ds (h p).id q pl ne r) (
    release-Keeps h p (h p).id q _ (rw (release_each-pods ds pl) e)
      (Adds-Apart (h p) ne (release_each-Adds ds (h p).id pl) a))

pub Reserved-OursOrFree :
    (ds : List ContainerSpec) (pod : String) (pl : PodList)
    → All (Reserved pod pl) ds
    → All (OursOrFree pod pl) ds
Reserved-OursOrFree [] pod pl h = tt
Reserved-OursOrFree (d ∷ ds) pod pl h =
    ((inl h.0.0, ground arith), Reserved-OursOrFree ds pod pl h.1)
