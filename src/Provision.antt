-- ===== src/Provision.antt =====
-- daemon/pod/provision.go and daemon/run.go: the creation of a pod and of a container in it, with
-- what the registry has reserved at each step. What newXPod, the sandbox and the resources answer is
-- a record; the containers of the spec have their ids once initResources has been through them.
pub mod Rollback
pub mod Leftover
use hyperd.Prelude.{
  ℕ, String, Bool, true, false, not, ◌&&◌, Option, none, some, List, Dict, lookup, leb, insert,
  ◌==◌, string_eq, nat_eq, if◌then◌else◌, Result, ok, err,
}
use hyperd.Registry.{
  PodList, Heap, Pod, Error, ContainerSpec, reserve_names, release_names, reserve_container_name,
  reserve_container_id, change_container_id, count_running,
}

-- startSandbox and InitSandbox: an error, or no sandbox; a sandbox that fails to be initialised; or
-- one that is.
pub data SandboxStart : Type 0 where
  no_sandbox uninitialised initialised : SandboxStart

-- The answers to the steps of CreateXPod, in their order; `specs` are the containers of the spec
-- when initResources returns, and `heap` is the pod object from then on. `sandbox_left` is whether
-- p.sandbox is not nil when CreateXPod returns: cleanup, which runs when the sandbox has died,
-- sets it to nil.
pub record Answers : Type 0 where
  pub made : Bool
  pub sandbox : SandboxStart
  pub specs : List ContainerSpec
  pub heap : Heap
  pub resources : Bool
  pub prepared : Bool
  pub added : Bool
  pub saved : Bool
  pub sandbox_left : Bool

pub data Fault : Type 0 where
  unmade failed : Fault
  names : Error → Fault

-- The registry after CreateXPod, whether the sandbox has been killed, and the error.
pub record Created : Type 0 where
  pub registry : PodList
  pub killed : Bool
  pub fault : Option Fault

-- The errors after the sandbox: both deferred functions run, and the sandbox is killed if the pod
-- still has one.
abbrev pub roll_back : Answers → ℕ → Fault → PodList → Created
roll_back a p f pl = record {
  registry = release_names a.heap p a.specs pl;
  killed = a.sandbox_left;
  fault = some f;
}

abbrev pub finish : Answers → ℕ → PodList × Option Error → Created
finish a p (pl, some e) = roll_back a p (names e) pl
finish a p (pl, none) =
    if a.saved
    then record { registry = pl; killed = false; fault = none }
    else roll_back a p failed pl

abbrev pub all_done : Answers → Bool
all_done a = a.resources && (a.prepared && a.added)

abbrev pub with_sandbox : Answers → ℕ → PodList → Created
with_sandbox a p pl =
    if all_done a then finish a p (reserve_names a.heap p a.specs pl) else roll_back a p failed pl

abbrev pub reserved : SandboxStart → Heap → ℕ → List ContainerSpec → Answers → PodList → Created
reserved initialised h p cs a pl = with_sandbox a p pl
reserved no_sandbox h p cs a pl = record {
  registry = release_names h p cs pl;
  killed = false;
  fault = some failed;
}
reserved uninitialised h p cs a pl = record {
  registry = release_names h p cs pl;
  killed = false;
  fault = some failed;
}

unfoldable pub create_x_pod : Heap → ℕ → List ContainerSpec → Answers → PodList → Created
unfolding reserve_names release_names
create_x_pod h p cs a pl =
    let first = reserve_names h p cs pl in
    if not a.made
    then record { registry = pl; killed = false; fault = some unmade }
    else elim first.1 [
      | some e ↦ record { registry = first.0; killed = false; fault = some (names e) }
      | none ↦ reserved a.sandbox h p cs a first.0
    ]

-- CreatePod: not above 1,024 running pods, and only with a spec that passes the checks.
pub data Refusal : Type 0 where
  too_many invalid : Refusal
  uncreated : Fault → Refusal

abbrev pub refusal_of : Option Fault → Option Refusal
refusal_of none = none
refusal_of (some f) = some (uncreated f)

unfoldable pub create_pod :
    Heap → ℕ → Bool → List ContainerSpec → Answers → PodList → PodList × Option Refusal
unfolding create_x_pod count_running
create_pod h p valid cs a pl =
    let r = create_x_pod h p cs a pl in
    if leb 1024 (count_running h pl)
    then (pl, some too_many)
    else if not valid
    then (pl, some invalid)
    else (r.registry, refusal_of r.fault)

-- DoContainerCreate, with the id that doContainerCreate gives; what the registry says of the id is
-- not looked at.
unfoldable pub do_container_create :
    String → Option String → String → PodList → PodList × Option String
unfolding change_container_id reserve_container_id
do_container_create pod created old_id pl = elim created [
  | none ↦ (pl, none)
  | some id ↦
      if old_id == ""
      then ((reserve_container_id id pod pl).0, some id)
      else ((change_container_id old_id id pod pl).0, some id)
]

pub data CreateError : Type 0 where
  not_running uncreated : CreateError
  unreserved : Error → CreateError

abbrev pub created_id : Option String → Result CreateError String
created_id none = err uncreated
created_id (some id) = ok id

-- ContainerCreate, with the name that the spec has or is given.
unfoldable pub container_create :
    String → Bool → String → Option String → PodList → PodList × Result CreateError String
unfolding reserve_container_name do_container_create
container_create pod alive name created pl =
    let first = reserve_container_name name pod pl in
    let rest = do_container_create pod created "" first.0 in
    if not alive then (pl, err not_running) else elim first.1 [
      | some e ↦ (first.0, err (unreserved e))
      | none ↦ (rest.0, created_id rest.1)
    ]
