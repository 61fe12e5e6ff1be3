-- ===== src/Listing.antt =====
-- daemon/list.go: the lists of pods, sandboxes and containers, with the texts of daemon/pod/pod.go,
-- container.go and buffer.go. A pod that is none, where a method of it then fails, is a panic.
pub mod Snapshot
pub mod Pending
use hyperd.Prelude.{
  Bool, true, false, not, ◌&&◌, Option, none, some, List, [], ◌∷◌, ◌++◌, map, Dict, lookup, ◌==◌,
  if◌then◌else◌, Result, ok, err,
}
use hyperd.Prelude.Text.{Text, text_eq, codes}
use hyperd.Registry.{PodState, s_none, starting, running, paused, stopped, stopping, error}
use hyperd.Container.{ContainerStatus, Brief, pending, up, succeeded, failed, brief_status}

-- A container of a pod: its id, its name and its status.
pub record Listed : Type 0 where
  pub id : Text
  pub name : Text
  pub status : ContainerStatus

-- What is listed of an XPod; of its buffered containers the provisional ids and the names.
pub record Pod : Type 0 where
  pub id : Text
  pub name : Text
  pub status : PodState
  pub sandbox : Option Text
  pub containers : List Listed
  pub buffers : List (Text × Text)

-- SandboxName
abbrev pub sandbox_name : Pod → Text
sandbox_name p = elim p.sandbox [ none ↦ [] | some s ↦ s ]

abbrev pub is_nil : Text → Bool
is_nil [] = true
is_nil (c ∷ cs) = false

-- PodList.Find
unfoldable pub find : (Pod → Bool) → Dict Text Pod → Option Pod
find f [] = none
find f ((id, p) ∷ pods) = let rest = find f pods in if f p then some p else rest

abbrev pub at_most : Option Pod → List Pod
at_most none = []
at_most (some p) = p ∷ []

-- snapshotPodList; `none` is a panic
unfoldable pub snapshot_pod_list : Text → Text → Dict Text Pod → Option (List Pod)
unfolding find
snapshot_pod_list pod_id vm_id pods =
    if not (is_nil pod_id)
    then elim (lookup pod_id pods) [
      | none ↦ if not (is_nil vm_id) then none else some []
      | some p ↦
          if not (is_nil vm_id) && not (sandbox_name p == vm_id) then some [] else some (p ∷ [])
    ]
    else if not (is_nil vm_id)
    then some (at_most (find (λ p. sandbox_name p == vm_id) pods))
    else some (map (λ e. e.1) pods)

-- ContainerListResult
pub record Entry : Type 0 where
  pub container_id : Text
  pub name : Text
  pub pod : Text
  pub status : Text

abbrev pub status_text : Brief → Text
status_text pending = codes "pending"
status_text up = codes "running"
status_text succeeded = codes "succeeded"
status_text failed = codes "failed"

-- BriefStatus of a container of the pod
abbrev pub container_entry : Pod → Listed → Entry
unfolding brief_status
container_entry p c = record {
  container_id = c.id;
  name = c.name;
  pod = p.id;
  status = status_text (brief_status c.status);
}

abbrev pub buffer_entry : Pod → Text × Text → Entry
buffer_entry p (id, name) = record {
  container_id = id;
  name = name;
  pod = p.id;
  status = codes "pending";
}

-- ListContainers, on the pods of the snapshot
unfoldable pub list_containers : List Pod → List Entry
unfolding brief_status
list_containers [] = []
list_containers (p ∷ ps) =
    map (container_entry p) p.containers ++ (map (buffer_entry p) p.buffers ++ list_containers ps)

-- strings.Join(…, ":")
abbrev pub join_colon : List Text → Text
join_colon [] = []
join_colon (t ∷ []) = t
join_colon (t ∷ u ∷ ts) = t ++ b':' ∷ join_colon (u ∷ ts)

-- StatusString of a container, and what AppendContainerBufferStatusString joins
abbrev pub entry_string : Entry → Text
entry_string e = join_colon (e.container_id ∷ e.name ∷ e.pod ∷ e.status ∷ [])

-- BriefStatus of a pod, its Status
unfoldable pub pod_status_text : PodState → Text
pod_status_text s_none = []
pod_status_text starting = codes "pending"
pod_status_text running = codes "running"
pod_status_text stopped = codes "failed"
pod_status_text paused = codes "paused"
pod_status_text stopping = codes "stopping"
pod_status_text error = codes "stopping"

-- StatusString of a pod
abbrev pub pod_string : Pod → Text
unfolding pod_status_text
pod_string p = join_colon (p.id ∷ p.name ∷ sandbox_name p ∷ pod_status_text p.status ∷ [])

-- SandboxStatusString
abbrev pub sandbox_string : Pod → Text
sandbox_string p = elim p.sandbox [
  | none ↦ []
  | some s ↦
      join_colon
        (s ∷ p.id ∷ (elim p.status [ paused ↦ codes "paused" | _ ↦ codes "associated" ]) ∷ [])
]

-- List, its loop over the containers of a pod, whose texts are never empty
unfoldable pub container_strings : Pod → List Listed → List Text
unfolding brief_status
container_strings p [] = []
container_strings p (c ∷ cs) =
    entry_string (container_entry p c)
    ∷ (map (λ b. entry_string (buffer_entry p b)) p.buffers ++ container_strings p cs)

pub data Item : Type 0 where
  of_vm of_pod of_container : Item

unfoldable pub pod_strings : Item → Pod → List Text
unfolding container_strings
pod_strings of_vm p = if is_nil (sandbox_name p) then [] else sandbox_string p ∷ []
pod_strings of_pod p = pod_string p ∷ []
pod_strings of_container p = container_strings p p.containers

abbrev pub is_none : PodState → Bool
is_none s_none = true
is_none _ = false

-- List, on the pods of the snapshot
unfoldable pub list_strings : Item → List Pod → List Text
unfolding pod_strings
list_strings item [] = []
list_strings item (p ∷ ps) =
    let rest = list_strings item ps in if is_none p.status then rest else pod_strings item p ++ rest
