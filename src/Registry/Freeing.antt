-- ===== src/Registry/Freeing.antt =====
-- daemon/pod/podlist.go, provision.go: what a release frees.
use hyperd.Prelude.{
  String, ◌≡◌, ◌⊎◌, inl, inr, none, List, [], ◌∷◌, arith, lookup, All, ==_iff, string_eq,
  lookup-delete, lookup-delete_all, Option-cases, nat_eq,
}
use hyperd.Registry.{
  PodList, Heap, ContainerSpec, container_ids, container_names_of, release, release_container,
  release_each,
}

-- The container's name, and its id if it has one, are reserved to nobody.
abbrev pub Gone : PodList → ContainerSpec → Type 0
Gone pl c =
    (lookup c.name pl.container_names ≡ none) × ((c.id ≡ "") ⊎ (lookup c.id pl.containers ≡ none))

release_each-Gone_one :
    (ds : List ContainerSpec) (c : ContainerSpec) (pl : PodList)
    → Gone pl c
    → Gone (release_each ds pl) c
unfolding release_each release_container
release_each-Gone_one [] c pl g = g
release_each-Gone_one (d ∷ ds) c pl g =
    release_each-Gone_one ds c (release_container d.id d.name pl) (
      ground (arith, lookup-delete d.name c.name pl.container_names),
      ground (arith, lookup-delete d.id c.id pl.containers),
    )

pub release_each-Gone :
    (ds : List ContainerSpec) (pl : PodList) → All (Gone (release_each ds pl)) ds
unfolding release_each release_container
release_each-Gone [] pl = tt
release_each-Gone (d ∷ ds) pl = (
  release_each-Gone_one ds d (release_container d.id d.name pl) (
    ground (arith, lookup-delete d.name d.name pl.container_names, ==_iff d.name d.name),
    ground (arith, lookup-delete d.id d.id pl.containers, ==_iff d.id d.id),
  ),
  release_each-Gone ds (release_container d.id d.name pl),
)

pub release-Gone :
    (h : Heap) (id : String) (ds : List ContainerSpec) (pl : PodList)
    → All (Gone pl) ds
    → All (Gone (release h id pl)) ds
unfolding release
release-Gone h id [] pl g = tt
release-Gone h id (d ∷ ds) pl g = elim (Option-cases (lookup id pl.pods)) [
  | inl e ↦ (rw (e, release) g.0, release-Gone h id ds pl g.1)
  | inr (p, e) ↦ (
    rw (e, release)
        (
          ground (
            arith,
            lookup-delete_all (container_names_of (h p)) d.name pl.container_names,
            g.0.0,
          ),
          ground (arith, lookup-delete_all (container_ids (h p)) d.id pl.containers, g.0.1),
        ),
    release-Gone h id ds pl g.1,
  )
]

pub release-pods : (h : Heap) (id : String) (pl : PodList) → lookup id (release h id pl).pods ≡ none
unfolding release
release-pods h id pl = ground (arith, lookup-delete id id pl.pods, ==_iff id id)
