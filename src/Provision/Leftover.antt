-- ===== src/Provision/Leftover.antt =====
-- daemon/pod/provision.go: what ContainerCreate leaves in the registry.
use hyperd.Prelude.{
  ℕ, String, ◌≡◌, refl, ap, ◌∙◌, true, false, Option, none, some, any, lookup, insert,
  lookup-insert, ◌==◌, ==_refl, string_eq, nat_eq, err,
}
use hyperd.Registry.{
  PodList, Heap, Error, taken_by_other, container_names_of, reserve_container_name, release,
}
use hyperd.Registry.Resolve.{release_exact}
use hyperd.Provision.{container_create, do_container_create, uncreated}

reserve_container_name-free :
    (name pod : String) (pl : PodList)
    → taken_by_other (lookup name pl.container_names) pod ≡ none
    → reserve_container_name name pod pl
      ≡ (record pl { container_names = insert name pod pl.container_names }, none)
unfolding reserve_container_name
reserve_container_name-free name pod pl e = rw (e, reserve_container_name) refl

container_create-failed :
    (pod name : String) (pl : PodList)
    → taken_by_other (lookup name pl.container_names) pod ≡ none
    → container_create pod true name none pl
      ≡ (record pl { container_names = insert name pod pl.container_names }, err uncreated)
unfolding container_create do_container_create
container_create-failed pod name pl e =
    let free = reserve_container_name-free name pod pl e in
    rw free (ap (λ (r : PodList × Option Error). (r.0, err uncreated)) free)

-- A container that cannot be created, in a running pod and with a name that no other pod has,
-- leaves its name reserved to the pod. When the pod, which holds no container of the name, is
-- released, the name stays reserved to a pod that is not registered any more.
pub container_create-leftover :
    (h : Heap) (p : ℕ) (pod name : String) (pl : PodList)
    → lookup pod pl.pods ≡ some p
    → any (λ n. n == name) (container_names_of (h p)) ≡ false
    → taken_by_other (lookup name pl.container_names) pod ≡ none
    → ((container_create pod true name none pl).1 ≡ err uncreated)
      × (lookup name (release h pod (container_create pod true name none pl).0).container_names
          ≡ some pod)
      × (lookup pod (release h pod (container_create pod true name none pl).0).pods ≡ none)
container_create-leftover h p pod name pl registered absent free =
    let after : PodList = record pl { container_names = insert name pod pl.container_names } in
    let names = release_exact h pod p after name registered in
    let pods = release_exact h pod p after pod registered in
    rw (container_create-failed pod name pl free) (
      refl,
      names.2
          ∙ (rw absent (lookup-insert name name pod pl.container_names ∙ rw (==_refl name) refl)),
      pods.0 ∙ (rw (==_refl pod) refl),
    )
