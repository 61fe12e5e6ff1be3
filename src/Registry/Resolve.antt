-- ===== src/Registry/Resolve.antt =====
-- daemon/pod/podlist.go: GetByContainerIdOrName by a prefix of an id, and Release.
use hyperd.Prelude.{
  ℕ, String, ◌≡◌, refl, ap, ◌∙◌, ◌⊎◌, inl, inr, Bool, true, none, some, [], ◌∷◌, arith, Dict,
  lookup, filter, any, ◌==◌, string_eq, lookup-delete, lookup-delete_all, if◌then◌else◌, Bool-cases,
}
use text.Mathlib.Text.{starts_with}
use hyperd.Registry.{PodList, Heap, release, by_prefix, container_ids, container_names_of}

-- The entry stands in the map.
abbrev pub Has : String × String → Dict String String → Type 0
Has x [] = ⊥
Has x (y ∷ ys) = (x ≡ y) ⊎ Has x ys

Has-filter :
    (f : String × String → Bool) (x : String × String) (m : Dict String String)
    → f x ≡ true
    → Has x m
    → Has x (filter f m)
Has-filter f x [] e h = h
Has-filter f x (y ∷ ys) e (inl q) = rw (← q) (rw e (inl refl))
Has-filter f x (y ∷ ys) e (inr h) = elim (Bool-cases (f y)) [
  | inl t ↦ rw t (inr (Has-filter f x ys e h))
  | inr t ↦ rw t (Has-filter f x ys e h)
]

Has-of_filter :
    (f : String × String → Bool) (x : String × String) (m : Dict String String)
    → Has x (filter f m)
    → Has x m × (f x ≡ true)
Has-of_filter f x [] h = absurd h
Has-of_filter f x (y ∷ ys) h = elim (Bool-cases (f y)) [
  | inl t ↦ here t (Has-of_filter f x ys) (rw t at h)
  | inr t ↦ let r = Has-of_filter f x ys (rw t at h) in (inr r.0, r.1)
]
  where
    here :
        f y ≡ true
        → (Has x (filter f ys) → Has x ys × (f x ≡ true))
        → Has x (y ∷ filter f ys)
        → Has x (y ∷ ys) × (f x ≡ true)
    here t rest (inl q) = (inl q, ap f q ∙ t)
    here t rest (inr r) = let s = rest r in (inr s.0, s.1)

-- What a search by the prefix `cid` can have met: `ms` are the entries whose id has the prefix.
by_prefix-of_matches :
    (cid : String) (pl : PodList) (p : ℕ) (id : String) (ms : Dict String String)
    → filter (λ c. starts_with c.0 cid) pl.containers ≡ ms
    → by_prefix cid pl ≡ some (p, id)
    → (owner : String) × (ms ≡ (id, owner) ∷ []) × (lookup owner pl.pods ≡ some p)
unfolding by_prefix
by_prefix-of_matches cid pl p id [] e h = ground arith
by_prefix-of_matches cid pl p id ((fullid, owner) ∷ []) e h = (owner, ground arith, ground arith)
by_prefix-of_matches cid pl p id (x ∷ y ∷ ms) e h = ground arith

-- A container that is found by a prefix of its id is registered with an id that has the prefix,
-- its owner is the pod that is returned, and no container with another id has the prefix.
pub by_prefix_unique :
    (cid : String) (pl : PodList) (p : ℕ) (id : String)
    → by_prefix cid pl ≡ some (p, id)
    → (owner : String) × Has (id, owner) pl.containers
      × (starts_with id cid ≡ true)
      × (lookup owner pl.pods ≡ some p)
      × ((k o : String) → Has (k, o) pl.containers → starts_with k cid ≡ true → k ≡ id)
by_prefix_unique cid pl p id h =
    let (owner, e, found) = by_prefix-of_matches cid pl p id _ refl h in
    let inside =
      Has-of_filter (λ c. starts_with c.0 cid) (id, owner) pl.containers (rw e (inl refl)) in
    (
      owner,
      inside.0,
      inside.1,
      found,
      λ k o m s. only k o owner e (Has-filter (λ c. starts_with c.0 cid) (k, o) pl.containers s m),
    )
  where
    only :
        (k o owner : String)
        → filter (λ c. starts_with c.0 cid) pl.containers ≡ (id, owner) ∷ []
        → Has (k, o) (filter (λ c. starts_with c.0 cid) pl.containers)
        → k ≡ id
    only k o owner e m = single k o owner (rw e at m)
      where
        single : (k o owner : String) → Has (k, o) ((id, owner) ∷ []) → k ≡ id
        single k o owner (inl q) = ap (λ x. x.0) q
        single k o owner (inr b) = absurd b

-- Releasing a registered pod takes it out of the registry, and frees the ids and the names of
-- the containers that the pod object holds at that time, and no others.
pub release_exact :
    (h : Heap) (id : String) (p : ℕ) (pl : PodList) (k : String)
    → lookup id pl.pods ≡ some p
    → (lookup k (release h id pl).pods ≡ (if id == k then none else lookup k pl.pods))
      × (lookup k (release h id pl).containers
          ≡ (if any (λ n. n == k) (container_ids (h p)) then none else lookup k pl.containers))
      × (lookup k (release h id pl).container_names ≡ (
          if any (λ n. n == k) (container_names_of (h p))
          then none
          else lookup k pl.container_names))
unfolding release
release_exact h id p pl k e = (
  rw (e, release) (lookup-delete id k pl.pods),
  rw (e, release) (lookup-delete_all (container_ids (h p)) k pl.containers),
  rw (e, release) (lookup-delete_all (container_names_of (h p)) k pl.container_names),
)
