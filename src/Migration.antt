-- ===== src/Migration.antt =====
-- daemon/pod/migration.go: the data of pods that an older daemon has left in the database are
-- written anew. What encoding/json decodes, what the container engine answers, and the messages
-- that newXPod, initResources and savePod make of a spec (`none` where one of the first two
-- fails) are fields of an `Outside`.
pub mod Purge
pub mod Again
pub mod Volumes
pub mod Kept
pub mod Moved
use hyperd.Prelude.{
  Bool, true, false, not, ◌&&◌, Option, none, some, List, [], ◌∷◌, ◌++◌, map, ◌==◌, nat_beq,
  if◌then◌else◌, Result, ok, err,
}
use hyperd.Prelude.Text.{Text, text_eq, codes}
use hyperd.Store.{
  Store, Disk, get, update, remove, has_prefix, key_pod, key_p2c, key_p2v, key_vm_data,
  get_pod_volume, update_pod_volume, delete_pod_volumes, legacy_get_all_pods, legacy_get_p2c,
  legacy_delete_vm_by_pod, legacy_delete_p2c, legacy_delete_pod,
}

pub record Container : Type 0 where
  pub name : Text
  pub id : Text

pub record Volume : Type 0 where
  pub name : Text
  pub source : Text
  pub format : Text

-- UserPod, as far as the migration goes
pub record Spec : Type 0 where
  pub id : Text
  pub containers : List Container
  pub volumes : List Volume

-- What the engine answers about a container: an error, something else than ContainerJSON, or the
-- container's name.
pub data Inspection : Type 0 where
  unknown other : Inspection
  named : Text → Inspection

-- `drivers` is the second decoding: of each entry of the list under "volumes", if there is such a
-- list, the text under "driver".
pub record Outside : Type 0 where
  pub decode : Text → Option Spec
  pub drivers : Text → Option (Option (List (Option Text)))
  pub inspect : Text → Inspection
  pub messages : Spec → Option (List (Text × Text))
  pub sandbox_info : Text → Text → Text

pub data Error : Type 0 where
  not_found undecodable unmatched refused uncreated panicked : Error

-- strings.TrimLeft(name, "/")
abbrev pub trim_slashes : Text → Text
trim_slashes [] = []
trim_slashes (c ∷ cs) = let rest = trim_slashes cs in if nat_beq c b'/' then rest else c ∷ cs

-- The loop of setupContanerID over the containers: the first of the name takes the id.
abbrev pub cons_container : Container → Option (List Container) → Option (List Container)
cons_container c none = none
cons_container c (some cs) = some (c ∷ cs)

unfoldable pub give_id : Text → Text → List Container → Option (List Container)
give_id name id [] = none
give_id name id (c ∷ cs) =
    let rest = cons_container c (give_id name id cs) in
    if c.name == name then some (record c { id = id } ∷ cs) else rest

-- setupContanerID over the ids: a container that the engine does not know is passed over, and an
-- answer of another kind ends the loop without an error.
unfoldable pub give_ids : (Text → Inspection) → List Text → List Container → Option (List Container)
unfolding give_id
give_ids inspect [] containers = some containers
give_ids inspect (id ∷ ids) containers = elim (inspect id) [
  | unknown ↦ give_ids inspect ids containers
  | other ↦ some containers
  | named name ↦ elim (give_id (trim_slashes name) id containers) [
    | none ↦ none
    | some cs ↦ give_ids inspect ids cs
  ]
]

abbrev pub matched : Spec → Option (List Container) → Result Error Spec
matched spec none = err unmatched
matched spec (some cs) = ok (record spec { containers = cs })

unfoldable pub setup_container_id : Outside → Text → Spec → Store → Result Error Spec
unfolding give_ids legacy_get_p2c
setup_container_id out pod spec db = elim (legacy_get_p2c pod db) [
  | none ↦ err not_found
  | some ids ↦ matched spec (give_ids out.inspect ids spec.containers)
]

-- strings.Replace(s, old, new, 1)
abbrev pub drop_prefix : Text → Text → Text
drop_prefix [] s = s
drop_prefix (p ∷ ps) [] = []
drop_prefix (p ∷ ps) (c ∷ cs) = drop_prefix ps cs

unfoldable pub replace_first : Text → Text → Text → Text
replace_first old new [] = if has_prefix old [] then new else []
replace_first old new (c ∷ cs) =
    let rest = replace_first old new cs in
    if has_prefix old (c ∷ cs) then new ++ drop_prefix old (c ∷ cs) else c ∷ rest

-- One round of setupVolumes: the volume as it is changed, and the record copied.
abbrev pub with_driver : Option Text → Volume → Volume
with_driver none v = v
with_driver (some driver) v = record v { format = driver }

unfoldable pub copy_record : Disk → Text → Text → Text → Store → Store × Bool
unfolding update_pod_volume
copy_record disk pod id name db = elim (get_pod_volume pod name db) [
  | none ↦ (db, true)
  | some info ↦ update_pod_volume disk id name info db
]

abbrev pub cons_volume :
    Volume → Store × Result Error (List Volume) → Store × Result Error (List Volume)
cons_volume v (db, err e) = (db, err e)
cons_volume v (db, ok vs) = (db, ok (v ∷ vs))

abbrev pub changed : Text → Text → Option Text → Volume → Volume
changed pod id driver v = record (with_driver driver v) {
  source = replace_first pod id (with_driver driver v).source;
}

-- The driver of the next volume, if there is a list of drivers; a list that is too short is a panic.
abbrev pub Drivers : Type 0
Drivers = Option (List (Option Text))

abbrev pub next_driver : Drivers → Option (Option Text × Drivers)
next_driver none = some (none, none)
next_driver (some []) = none
next_driver (some (d ∷ ds)) = some (d, some ds)

abbrev pub copied :
    Volume → Store × Bool → Store × Result Error (List Volume) → Store × Result Error (List Volume)
copied v first rest = if first.1 then cons_volume v rest else (first.0, err refused)

unfoldable pub volume_loop :
    Disk → Text → Text → List Volume → Drivers → Store → Store × Result Error (List Volume)
unfolding copy_record replace_first
volume_loop disk pod id [] drivers db = (db, ok [])
volume_loop disk pod id (v ∷ vs) drivers db =
    let first = copy_record disk pod id v.name db in
    elim (next_driver drivers) [
      | none ↦ (db, err panicked)
      | some (d, ds) ↦ copied (changed pod id d v) first (volume_loop disk pod id vs ds first.0)
    ]

unfoldable pub setup_volumes :
    Outside → Disk → Text → Text → Spec → Store → Store × Result Error (List Volume)
unfolding volume_loop
setup_volumes out disk pod persist spec db = elim (out.drivers persist) [
  | none ↦ (db, err undecodable)
  | some drivers ↦ volume_loop disk pod spec.id spec.volumes drivers db
]

-- saveMessage for each of the messages, up to the first that is refused
unfoldable pub save_each : Disk → List (Text × Text) → Store → Store × Bool
unfolding update
save_each disk [] db = (db, true)
save_each disk ((k, m) ∷ ms) db =
    let first = update disk k m db in
    let rest = save_each disk ms first.0 in if first.1 then rest else first

-- persistLagecyPod
unfoldable pub persist_legacy_pod : Outside → Disk → Spec → Store → Store × Result Error Spec
unfolding save_each
persist_legacy_pod out disk spec db = elim (out.messages spec) [
  | none ↦ (db, err uncreated)
  | some ms ↦ ((save_each disk ms db).0, if (save_each disk ms db).1 then ok spec else err refused)
]

-- The sandbox of the pod, if it has one
abbrev pub sandbox_key : Text → Text
sandbox_key pod = codes "SB-" ++ pod

abbrev pub saved : Spec → Store × Bool → Store × Result Error Spec
saved spec (db, done) = (db, if done then ok spec else err refused)

unfoldable pub save_sandbox : Outside → Disk → Text → Spec → Store → Store × Result Error Spec
unfolding update
save_sandbox out disk pod spec db = elim (get (key_p2v pod) db) [
  | none ↦ (db, ok spec)
  | some vm ↦ elim (get (key_vm_data vm) db) [
    | none ↦ (db, err not_found)
    | some info ↦ saved spec (update disk (sandbox_key spec.id) (out.sandbox_info vm info) db)
  ]
]

-- purgeLagecyPersistPod: its errors are only logged.
unfoldable pub purge : Disk → Text → Store → Store
unfolding legacy_delete_vm_by_pod remove delete_pod_volumes
purge disk pod db =
    delete_pod_volumes disk pod
      (legacy_delete_p2c disk pod
        (legacy_delete_pod disk pod (legacy_delete_vm_by_pod disk pod db).0).0).0

-- One round of MigrateLagecyPersistentData
abbrev pub and_then :
    Store × Result Error Spec
    → (Spec → Store → Store × Result Error Spec)
    → Store × Result Error Spec
and_then (db, err e) next = (db, err e)
and_then (db, ok spec) next = next spec db

abbrev pub with_volumes : Spec → Store × Result Error (List Volume) → Store × Result Error Spec
with_volumes spec (db, err e) = (db, err e)
with_volumes spec (db, ok vs) = (db, ok (record spec { volumes = vs }))

abbrev pub decoded : Option Spec → Result Error Spec
decoded none = err undecodable
decoded (some spec) = ok spec

unfoldable pub migrate_pod : Outside → Disk → Text → Text → Store → Store × Result Error Spec
unfolding setup_container_id setup_volumes persist_legacy_pod save_sandbox purge
migrate_pod out disk pod persist db =
    and_then (db, decoded (out.decode persist))
      λ s db0.
        and_then (db0, setup_container_id out pod s db0)
          λ spec db1.
            and_then (with_volumes spec (setup_volumes out disk pod persist spec db1)) λ full db2.
              and_then (persist_legacy_pod out disk full db2) λ kept db3.
                and_then (save_sandbox out disk pod kept db3)
                  λ last db4. (purge disk pod db4, ok last)

-- The id of a pod: its key without the first four bytes
abbrev pub pod_of : Text → Text
pod_of key = drop_prefix (codes "pod-") key

unfoldable pub migrate_loop : Outside → Disk → Store → Store → Store × Option Error
unfolding migrate_pod
migrate_loop out disk [] db = (db, none)
migrate_loop out disk ((key, persist) ∷ items) db =
    let first = migrate_pod out disk (pod_of key) persist db in
    let rest = migrate_loop out disk items first.0 in
    elim first.1 [ err e ↦ (first.0, some e) | ok spec ↦ rest ]

-- MigrateLagecyPersistentData: the entries are those at the start.
unfoldable pub migrate : Outside → Disk → Store → Store × Option Error
unfolding migrate_loop legacy_get_all_pods
migrate out disk db = migrate_loop out disk (legacy_get_all_pods db) db
