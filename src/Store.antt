-- ===== src/Store.antt =====
-- daemon/daemondb/daemondb.go and keys.go: the daemon's database. Leveldb is a map from keys to
-- values, and its iterator, made when the call is made, goes through the entries at that moment;
-- the order of its keys is not modelled, nor an error of an iterator. Whether leveldb carries out a
-- deletion or a write of a key is the argument `disk`.
pub mod Laws
pub mod Kinds
pub mod Snapshot
use hyperd.Prelude.{
  Bool, true, false, not, ◌&&◌, Option, none, some, List, [], ◌∷◌, ◌++◌, map, filter, any, Dict,
  lookup, insert, delete, delete_all, nat_beq, if◌then◌else◌, Result, ok, err,
}
use hyperd.Prelude.Text.{Text, text_eq, codes}
use hyperd.Names.{split}

abbrev pub Store : Type 0
Store = Dict Text Text

-- The answers of leveldb to a deletion and to a write.
pub record Disk : Type 0 where
  pub deletes : Text → Bool
  pub puts : Text → Bool

-- keyVMData, keyP2V, keyP2C, keyPod, keyVolume and the prefixes
abbrev pub key_vm_data : Text → Text
key_vm_data id = codes "vmdata-" ++ id

abbrev pub key_p2v : Text → Text
key_p2v id = codes "vm-" ++ id

abbrev pub pod_container_prefix : Text
pod_container_prefix = codes "pod-container-"

abbrev pub key_p2c : Text → Text
key_p2c id = pod_container_prefix ++ id

abbrev pub prefix_pod : Text
prefix_pod = codes "pod-"

abbrev pub key_pod : Text → Text
key_pod id = prefix_pod ++ id

abbrev pub key_volume : Text → Text → Text
key_volume pod volume = codes "vol-" ++ (pod ++ b'-' ∷ volume)

abbrev pub prefix_p2v : Text
prefix_p2v = codes "vm-"

abbrev pub prefix_volume : Text → Text
prefix_volume pod = codes "vol-" ++ pod

-- strings.HasPrefix(s, prefix)
abbrev pub has_prefix : Text → Text → Bool
has_prefix [] s = true
has_prefix (p ∷ ps) [] = false
has_prefix (p ∷ ps) (c ∷ cs) = nat_beq p c && has_prefix ps cs

-- Get, GetString; `none` is the error that the key is not found.
abbrev pub get : Text → Store → Option Text
get key db = lookup key db

-- Delete: leveldb does not complain of a key that is absent.
unfoldable pub remove : Disk → Text → Store → Store × Bool
remove disk key db = if disk.deletes key then (delete key db, true) else (db, false)

abbrev pub put : Disk → Text → Text → Store → Store × Bool
put disk key value db = if disk.puts key then (insert key value db, true) else (db, false)

-- Update: a value that stands is deleted before the new one is written.
unfoldable pub update : Disk → Text → Text → Store → Store × Bool
update disk key value db = elim (get key db) [
  | none ↦ put disk key value db
  | some old ↦ if disk.deletes key then put disk key value (delete key db) else (db, false)
]

-- The keys and the values of the entries that an iterator over a prefix finds.
abbrev pub keys : Store → List Text
keys db = map (λ e. e.0) db

abbrev pub entries_of : Text → Store → Store
entries_of prefix db = filter (λ e. has_prefix prefix e.0) db

-- PrefixDelete: the error of a deletion is not looked at.
unfoldable pub try_delete : Disk → List Text → Store → Store
unfolding remove
try_delete disk [] db = db
try_delete disk (k ∷ ks) db = try_delete disk ks (remove disk k db).0

unfoldable pub prefix_delete : Disk → Text → Store → Store
unfolding try_delete
prefix_delete disk prefix db = try_delete disk (keys (entries_of prefix db)) db

-- PrefixList, PrefixListKey, and what PrefixList2Chan sends
abbrev pub kept : (Text → Bool) → Store → Store
kept key_filter db = filter (λ e. key_filter e.0) db

unfoldable pub prefix_list : Text → (Text → Bool) → Store → List Text
prefix_list prefix key_filter db = map (λ e. e.1) (kept key_filter (entries_of prefix db))

unfoldable pub prefix_list_key : Text → (Text → Bool) → Store → List Text
prefix_list_key prefix key_filter db = keys (kept key_filter (entries_of prefix db))

unfoldable pub prefix_list2chan : Text → (Text → Bool) → Store → Store
prefix_list2chan prefix key_filter db = kept key_filter (entries_of prefix db)

abbrev pub is_pod_key : Text → Bool
is_pod_key key = not (has_prefix pod_container_prefix key)

-- LagecyListPod and LagecyGetAllPods
unfoldable pub legacy_list_pod : Store → List Text
unfolding prefix_list_key
legacy_list_pod db = prefix_list_key prefix_pod is_pod_key db

unfoldable pub legacy_get_all_pods : Store → Store
unfolding prefix_list2chan
legacy_get_all_pods db = prefix_list2chan prefix_pod is_pod_key db

-- UpdatePodVolume, ListPodVolumes, DeletePodVolume and DeletePodVolumes
unfoldable pub update_pod_volume : Disk → Text → Text → Text → Store → Store × Bool
unfolding update
update_pod_volume disk pod volume value db = update disk (key_volume pod volume) value db

abbrev pub get_pod_volume : Text → Text → Store → Option Text
get_pod_volume pod volume db = get (key_volume pod volume) db

unfoldable pub list_pod_volumes : Text → Store → List Text
unfolding prefix_list
list_pod_volumes pod db = prefix_list (prefix_volume pod) (λ k. true) db

unfoldable pub delete_pod_volume : Disk → Text → Text → Store → Store × Bool
unfolding remove
delete_pod_volume disk pod volume db = remove disk (key_volume pod volume) db

unfoldable pub delete_pod_volumes : Disk → Text → Store → Store
unfolding prefix_delete
delete_pod_volumes disk pod db = prefix_delete disk (prefix_volume pod) db

-- strings.Join(containers, ":")
abbrev pub join_after : Text → List Text → Text
join_after s [] = s
join_after s (t ∷ ts) = s ++ (b':' ∷ join_after t ts)

abbrev pub join : List Text → Text
join [] = []
join (s ∷ ss) = join_after s ss

-- LagecyGetP2C and LagecyUpdateP2C; `none` is the error that the key is not found.
unfoldable pub split_list : Text → List Text
split_list [] = []
split_list (c ∷ cs) = split b':' (c ∷ cs)

unfoldable pub legacy_get_p2c : Text → Store → Option (List Text)
unfolding split_list
legacy_get_p2c pod db = elim (get (key_p2c pod) db) [ none ↦ none | some cl ↦ some (split_list cl) ]

unfoldable pub legacy_update_p2c : Disk → Text → List Text → Store → Store × Bool
unfolding update
legacy_update_p2c disk pod containers db = update disk (key_p2c pod) (join containers) db

-- LagecyUpdatePod, LagecyUpdateP2V, LagecyUpdateVM and the deletions of the single keys
unfoldable pub legacy_update_pod : Disk → Text → Text → Store → Store × Bool
unfolding update
legacy_update_pod disk id value db = update disk (key_pod id) value db

unfoldable pub legacy_update_p2v : Disk → Text → Text → Store → Store × Bool
unfolding update
legacy_update_p2v disk id vm db = update disk (key_p2v id) vm db

unfoldable pub legacy_update_vm : Disk → Text → Text → Store → Store × Bool
unfolding update
legacy_update_vm disk id value db = update disk (key_vm_data id) value db

abbrev pub legacy_delete_pod : Disk → Text → Store → Store × Bool
legacy_delete_pod disk id db = remove disk (key_pod id) db

abbrev pub legacy_delete_p2c : Disk → Text → Store → Store × Bool
legacy_delete_p2c disk id db = remove disk (key_p2c id) db

abbrev pub legacy_delete_p2v : Disk → Text → Store → Store × Bool
legacy_delete_p2v disk id db = remove disk (key_p2v id) db

abbrev pub legacy_delete_vm : Disk → Text → Store → Store × Bool
legacy_delete_vm disk id db = remove disk (key_vm_data id) db

-- LagecyDeleteVMByPod: nothing is deleted where the pod has no VM; the deletion of the link may
-- fail unnoticed.
unfoldable pub legacy_delete_vm_by_pod : Disk → Text → Store → Store × Bool
unfolding remove
legacy_delete_vm_by_pod disk pod db = elim (get (key_p2v pod) db) [
  | none ↦ (db, false)
  | some vm ↦ legacy_delete_vm disk vm (legacy_delete_p2v disk pod db).0
]

-- LagecyDeleteAllP2V
unfoldable pub legacy_delete_all_p2v : Disk → Store → Store
unfolding prefix_delete
legacy_delete_all_p2v disk db = prefix_delete disk prefix_p2v db
