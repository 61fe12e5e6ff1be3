-- ===== src/Registry.antt =====
-- daemon/pod/podlist.go: the daemon's registry of pods, container ids and container names, each
-- method one critical section under its lock. A `*XPod` in the registry is a pointer, a number
-- here, and what the registry reads of the pod behind it is given by the heap.
pub mod Isolation
pub mod Resolve
pub mod Rename
pub mod Keeping
pub mod Freeing
pub mod Steps
pub mod Atomic
use hyperd.Prelude.{
  ℕ, ◌+◌, String, Bool, true, false, not, Option, none, some, List, [], ◌∷◌, map, Dict, lookup,
  insert, delete, delete_all, length, filter, ◌==◌, nat_eq, string_eq, if◌then◌else◌,
}
use text.Mathlib.Text.{starts_with}

-- daemon/pod/pod.go: PodState
pub data PodState : Type 0 where
  s_none starting running paused stopped stopping error : PodState

abbrev pub same_state : PodState → PodState → Bool
same_state s_none s_none = true
same_state starting starting = true
same_state running running = true
same_state paused paused = true
same_state stopped stopped = true
same_state stopping stopping = true
same_state error error = true
same_state _ _ = false

-- The fields of an `XPod` that the registry reads; `containers` maps an id to the name in the
-- container's spec.
pub record Pod : Type 0 where
  pub id : String
  pub status : PodState
  pub containers : Dict String String

abbrev pub Heap : Type 0
Heap = ℕ → Pod

pub record PodList : Type 0 where
  pub pods : Dict String ℕ
  pub containers : Dict String String
  pub container_names : Dict String String

abbrev pub new_pod_list : PodList
new_pod_list = record { pods = []; containers = []; container_names = [] }

pub data Error : Type 0 where
  id_taken name_taken : String → Error
  pod_not_exist pod_in_use : Error

-- `pn, ok := m[key]; ok && pn != pod`
abbrev pub taken_by_other : Option String → String → Option String
taken_by_other none pod = none
taken_by_other (some pn) pod = if pn == pod then none else some pn

unfoldable pub get : String → PodList → Option ℕ
get id pl = lookup id pl.pods

unfoldable pub reserve_container_id : String → String → PodList → PodList × Option Error
reserve_container_id id pod pl = elim (taken_by_other (lookup id pl.containers) pod) [
  | some pn ↦ (pl, some (id_taken pn))
  | none ↦ (record pl { containers = insert id pod pl.containers }, none)
]

unfoldable pub reserve_container_name : String → String → PodList → PodList × Option Error
reserve_container_name name pod pl = elim (taken_by_other (lookup name pl.container_names) pod) [
  | some pn ↦ (pl, some (name_taken pn))
  | none ↦ (record pl { container_names = insert name pod pl.container_names }, none)
]

-- ReserveContainer from its second check on
reserve_checked : String → String → String → PodList → PodList × Option Error
reserve_checked id name pod pl = elim (taken_by_other (lookup name pl.container_names) pod) [
  | some pn ↦ (pl, some (name_taken pn))
  | none ↦
      if id == ""
      then (record pl { container_names = insert name pod pl.container_names }, none)
      else elim (taken_by_other (lookup id pl.containers) pod) [
        | some pn ↦ (pl, some (id_taken pn))
        | none ↦ (
          record pl {
            containers = insert id pod pl.containers;
            container_names = insert name pod pl.container_names;
          },
          none,
        )
      ]
]

unfoldable pub reserve_container : String → String → String → PodList → PodList × Option Error
unfolding reserve_checked
reserve_container id name pod pl = elim (lookup pod pl.pods) [
  | none ↦ (pl, some pod_not_exist)
  | some p ↦ reserve_checked id name pod pl
]

unfoldable pub change_container_id : String → String → String → PodList → PodList × Option Error
change_container_id old_id new_id pod pl = elim (lookup pod pl.pods) [
  | none ↦ (pl, some pod_not_exist)
  | some p ↦ elim (taken_by_other (lookup new_id pl.containers) pod) [
    | some pn ↦ (pl, some (id_taken pn))
    | none ↦ (record pl { containers = insert new_id pod (delete old_id pl.containers) }, none)
  ]
]

-- `pe, ok := pl.pods[name]; ok && pe != p`
abbrev pub in_use : Option ℕ → ℕ → Bool
in_use none p = false
in_use (some pe) p = not (pe == p)

unfoldable pub reserve_pod : Heap → ℕ → PodList → PodList × Option Error
reserve_pod h p pl =
    let name = (h p).id in
    if in_use (lookup name pl.pods) p
    then (pl, some pod_in_use)
    else (record pl { pods = insert name p pl.pods }, none)

-- daemon/pod/pod.go: ContainerIds, ContainerNames
abbrev pub container_ids : Pod → List String
container_ids p = map (λ c. c.0) p.containers

abbrev pub container_names_of : Pod → List String
container_names_of p = map (λ c. c.1) p.containers

unfoldable pub release : Heap → String → PodList → PodList
release h id pl = elim (lookup id pl.pods) [
  | none ↦ record pl { pods = delete id pl.pods }
  | some p ↦ record {
    pods = delete id pl.pods;
    containers = delete_all (container_ids (h p)) pl.containers;
    container_names = delete_all (container_names_of (h p)) pl.container_names;
  }
]

unfoldable pub release_container : String → String → PodList → PodList
release_container id name pl = record pl {
  containers = delete id pl.containers;
  container_names = delete name pl.container_names;
}

unfoldable pub release_container_name : String → PodList → PodList
release_container_name name pl = record pl { container_names = delete name pl.container_names }

unfoldable pub get_by_container_id : String → PodList → Option ℕ
get_by_container_id cid pl = elim (lookup cid pl.containers) [
  | none ↦ none
  | some podid ↦ lookup podid pl.pods
]

-- daemon/pod/pod.go: ContainerName2Id, its loop over the containers
unfoldable pub name_to_id_loop : String → Dict String String → Option String
name_to_id_loop name [] = none
name_to_id_loop name ((id, n) ∷ cs) =
    if name == n then some id else if starts_with id name then some id else name_to_id_loop name cs

-- daemon/pod/pod.go: ContainerName2Id; `none` is `"", false`.
unfoldable pub container_name_to_id : String → Pod → Option String
unfolding name_to_id_loop
container_name_to_id name p = if name == "" then none else elim (lookup name p.containers) [
  | some n ↦ some name
  | none ↦ name_to_id_loop name p.containers
]

abbrev pub id_or_empty : Option String → String
id_or_empty none = ""
id_or_empty (some id) = id

-- The pod and the container id that GetByContainerIdOrName finds behind an owner's name.
abbrev pub at_pod : Option ℕ → (ℕ → String) → Option (ℕ × String)
at_pod none f = none
at_pod (some p) f = some (p, f p)

-- GetByContainerIdOrName: its last part, by the prefixes of ids. The loop over the map collects
-- the matches, and `fullid` is the last one.
unfoldable pub by_prefix : String → PodList → Option (ℕ × String)
by_prefix cid pl = elim (filter (λ c. starts_with c.0 cid) pl.containers) [
  | [] ↦ none
  | (fullid, owner) ∷ [] ↦ at_pod (lookup owner pl.pods) (λ _. fullid)
  | _ ↦ none
]

unfoldable pub get_by_container_id_or_name : Heap → String → PodList → Option (ℕ × String)
unfolding by_prefix container_name_to_id
get_by_container_id_or_name h cid pl = elim (lookup cid pl.container_names) [
  | some podid ↦ at_pod (lookup podid pl.pods) (λ p. id_or_empty (container_name_to_id cid (h p)))
  | none ↦ elim (lookup cid pl.containers) [
    | some podid ↦ at_pod (lookup podid pl.pods) (λ _. cid)
    | none ↦ by_prefix cid pl
  ]
]

unfoldable pub count_status : Heap → PodState → Dict String ℕ → ℕ
count_status h s [] = 0
count_status h s ((name, p) ∷ ps) =
    let rest = count_status h s ps in if same_state (h p).status s then rest + 1 else rest

unfoldable pub count_running : Heap → PodList → ℕ
unfolding count_status
count_running h pl =
    count_status h running pl.pods + count_status h starting pl.pods + count_status h paused pl.pods

unfoldable pub count_all : PodList → ℕ
count_all pl = length pl.pods

unfoldable pub count_containers : PodList → ℕ
count_containers pl = length pl.containers

-- findUnsafe: the first pod, in the map's order, that passes the test
unfoldable pub find : Heap → (Pod → Bool) → Dict String ℕ → Option ℕ
find h fn [] = none
find h fn ((name, p) ∷ ps) = if fn (h p) then some p else find h fn ps

-- daemon/pod/provision.go: the containers of a pod's spec, as far as names go
pub record ContainerSpec : Type 0 where
  pub id : String
  pub name : String

-- daemon/pod/provision.go: releaseNames
unfoldable pub release_each : List ContainerSpec → PodList → PodList
unfolding release_container
release_each [] pl = pl
release_each (c ∷ cs) pl = release_each cs (release_container c.id c.name pl)

unfoldable pub release_names : Heap → ℕ → List ContainerSpec → PodList → PodList
unfolding release_each release
release_names h p cs pl = release h (h p).id (release_each cs pl)

-- daemon/pod/provision.go: reserveNames, its loop; `done` holds the containers reserved so far,
-- and on an error they are released with the pod.
unfoldable pub reserve_each :
    Heap → ℕ → List ContainerSpec → List ContainerSpec → PodList → PodList × Option Error
unfolding reserve_container release_names
reserve_each h p done [] pl = (pl, none)
reserve_each h p done (c ∷ cs) pl =
    let (pl', r) = reserve_container c.id c.name (h p).id pl in
    elim r [
      | some e ↦ (release_names h p done pl', some e)
      | none ↦ reserve_each h p (c ∷ done) cs pl'
    ]

unfoldable pub reserve_names : Heap → ℕ → List ContainerSpec → PodList → PodList × Option Error
unfolding reserve_pod reserve_each
reserve_names h p cs pl =
    let (pl', r) = reserve_pod h p pl in
    elim r [ some e ↦ (pl', some e) | none ↦ reserve_each h p [] cs pl' ]
