-- ===== src/Registry/Isolation.antt =====
-- daemon/pod/podlist.go, daemon/pod/provision.go: what one pod's operations on the registry do to
-- the reservations of another, and what a failed reservation leaves behind.
use hyperd.Prelude.{
  String, ◌≡◌, ◌≢◌, ◌⊎◌, none, some, arith, lookup, ==_iff, string_eq, lookup-insert, nat_eq,
}
use hyperd.Registry.{PodList, ContainerSpec, reserve_container}

-- What is reserved to the pod `q` in `pl` is reserved to it in `pl'`.
pub record Keeps (q : String) (pl pl' : PodList) : Type 0 where
  pub names :
      (k : String) → lookup k pl.container_names ≡ some q → lookup k pl'.container_names ≡ some q
  pub ids :
      (k : String) → k ≢ "" → lookup k pl.containers ≡ some q → lookup k pl'.containers ≡ some q

pub Keeps-refl : (q : String) (pl : PodList) → Keeps q pl pl
Keeps-refl q pl = record { names = λ k h. h; ids = λ k _ h. h }

pub Keeps-trans : {q : String} {a b c : PodList} → Keeps q a b → Keeps q b c → Keeps q a c
Keeps-trans f g = record {
  names = λ k h. g.names k (f.names k h);
  ids = λ k n h. g.ids k n (f.ids k n h);
}

-- A reservation for a pod never takes over an id or a name that any pod has already, whether it
-- succeeds or fails.
pub reserve_container-Keeps :
    (id name pod q : String) (pl : PodList) → Keeps q pl (reserve_container id name pod pl).0
unfolding reserve_container
reserve_container-Keeps id name pod q pl = record { names = names; ids = ids }
  where
    names :
        (k : String)
        → lookup k pl.container_names ≡ some q
        → lookup k (reserve_container id name pod pl).0.container_names ≡ some q
    names k h =
        ground (arith, lookup-insert name k pod pl.container_names, ==_iff name k, ==_iff q pod)

    ids :
        (k : String)
        → k ≢ ""
        → lookup k pl.containers ≡ some q
        → lookup k (reserve_container id name pod pl).0.containers ≡ some q
    ids k n h = ground (arith, lookup-insert id k pod pl.containers, ==_iff id k, ==_iff q pod)

-- The container is reserved to the pod: its name, and its id if it has one.
abbrev pub Reserved : String → PodList → ContainerSpec → Type 0
Reserved pod pl c =
    (lookup c.name pl.container_names ≡ some pod)
    × ((c.id ≡ "") ⊎ (lookup c.id pl.containers ≡ some pod))

pub reserve_container-Reserved :
    (c : ContainerSpec) (pod : String) (pl : PodList)
    → (reserve_container c.id c.name pod pl).1 ≡ none
    → Reserved pod (reserve_container c.id c.name pod pl).0 c
unfolding reserve_container
reserve_container-Reserved c pod pl h = (
  ground (arith, lookup-insert c.name c.name pod pl.container_names, ==_iff c.name c.name),
  ground (arith, lookup-insert c.id c.id pod pl.containers, ==_iff c.id c.id, ==_iff c.id ""),
)

pub reserve_container-pods :
    (id name pod : String) (pl : PodList) → (reserve_container id name pod pl).0.pods ≡ pl.pods
unfolding reserve_container
reserve_container-pods id name pod pl = ground arith
