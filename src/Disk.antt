-- ===== src/Disk.antt =====
-- daemon/storage.go: the volumes of pods on the device mapper, of which the database keeps the
-- numbers of the devices, and DeleteVolumeId of daemon/daemon.go. The sum that names a device is
-- the argument `hex_sum`; what the device mapper answers to a creation, to a deletion and to the
-- question for a device's file system are arguments.
pub mod Records
pub mod Restore
pub mod Sharing
use hyperd.Prelude.{
  ℕ, suc, zero, ◌+◌, ◌%◌, Bool, true, false, Option, none, some, List, [], ◌∷◌, ◌++◌, ◌==◌, ltb,
  if◌then◌else◌, Result, ok, err,
}
use hyperd.Prelude.Text.{Text, text_eq, codes}
use hyperd.Prelude.Int.{ℤ, pos, negsuc}
use hyperd.Names.{cut, split, parse_int, atoi}
use hyperd.Services.{decimal}
use hyperd.Store.{
  Store, get_pod_volume, update_pod_volume, list_pod_volumes, delete_pod_volume, delete_pod_volumes,
}
use hyperd.Store as Db

-- `Disk` names the answers of leveldb here as there.
abbrev pub Leveldb : Type 0
Leveldb = Db.Disk

abbrev pub vol_pool_name : Text
vol_pool_name = codes "hyper-volume-pool"

abbrev pub default_vol_fs : Text
default_vol_fs = codes "ext4"

-- `deviceName` of CreateVolume
abbrev pub device_name : (Text → Text) → Text → Text → Text
device_name hex_sum pod volume = vol_pool_name ++ (b'-' ∷ hex_sum (pod ++ volume))

-- The record of a device: its name and its number.
abbrev pub record_of : Text → ℤ → Text
record_of device dev_id = device ++ (b':' ∷ decimal dev_id)

-- getPersistedId: the number in the last record of the name, or 0; `none` is the panic at a record
-- of the name that has no number.
unfoldable pub id_loop : Text → List Text → ℤ → Option ℤ
id_loop volume [] dev_id = some dev_id
id_loop volume (vol ∷ vols) dev_id =
    if (cut b':' vol).0 == volume
    then elim (cut b':' vol).1 [
      | none ↦ none
      | some rest ↦ id_loop volume vols (atoi (parse_int 10 (cut b':' rest).0))
    ]
    else id_loop volume vols dev_id

unfoldable pub get_persisted_id : Text → Text → Store → Option ℤ
unfolding id_loop list_pod_volumes
get_persisted_id pod volume db = id_loop volume (list_pod_volumes pod db) (pos 0)

-- What dm.CreateVolume answers: it creates the device, finds a file that exists, or fails.
pub data Answer : Type 0 where
  created file_exists failed : Answer

-- The device mapper: its answer to a creation with a number, for one device and one call.
abbrev pub restores : ℤ → Bool
restores (pos n) = ltb 0 n
restores (negsuc n) = false

-- randDevId, for the draw of rand.Intn
abbrev pub rand_dev_id : ℕ → ℤ
rand_dev_id draw = pos (draw % 16777215 + 1)

-- The loop of CreateVolume: one draw and one answer for each round. `none` is a loop that still
-- goes on, `some none` an error.
unfoldable pub create_loop : Bool → ℤ → List (ℕ × Answer) → Option (Option ℤ)
create_loop restore dev_id [] = none
create_loop restore dev_id ((draw, answer) ∷ rounds) =
    let id = if restore then dev_id else rand_dev_id draw in
    let again = create_loop restore id rounds in
    elim answer [
      | created ↦ some (some id)
      | file_exists ↦ if restore then some none else again
      | failed ↦ some none
    ]

-- A volume of a pod's spec, as far as CreateVolume goes.
pub record Volume : Type 0 where
  pub name : Text
  pub source : Text
  pub format : Text
  pub fstype : Text

abbrev pub is_nil : Text → Bool
is_nil [] = true
is_nil (c ∷ cs) = false

abbrev pub probed : Option Text → Text
probed none = default_vol_fs
probed (some fs) = fs

abbrev pub fs_of : Bool → Option Text → Text → Text
fs_of restore probe fstype =
    if restore then default_vol_fs else if is_nil fstype then probed probe else fstype

pub data Outcome : Type 0 where
  panicked going_on refused : Outcome
  made : ℤ → Volume → Store → Outcome

abbrev pub finish : Leveldb → Text → Text → Bool → Option Text → Volume → Store → ℤ → Outcome
finish disk pod device restore probe spec db dev_id =
    made dev_id
      (record spec {
        source = codes "/dev/mapper/" ++ device;
        format = codes "raw";
        fstype = fs_of restore probe spec.fstype;
      })
      (update_pod_volume disk pod device (record_of device dev_id) db).0

abbrev pub after_loop : (ℤ → Outcome) → Option (Option ℤ) → Outcome
after_loop done none = going_on
after_loop done (some none) = refused
after_loop done (some (some dev_id)) = done dev_id

-- CreateVolume: what the database answers to the record of the device is not looked at.
unfoldable pub create_volume :
    (Text → Text) → Leveldb → Text → Volume → Option Text → List (ℕ × Answer) → Store → Outcome
unfolding get_persisted_id create_loop update_pod_volume
create_volume hex_sum disk pod spec probe rounds db =
    let device = device_name hex_sum pod spec.name in
    elim (get_persisted_id pod device db) [
      | none ↦ panicked
      | some dev_id ↦
          after_loop (finish disk pod device (restores dev_id) probe spec db)
            (create_loop (restores dev_id) dev_id rounds)
    ]

pub data Error : Type 0 where
  not_found invalid undeleted unrecorded : Error

-- RemoveVolume: the device of a record, or of the record that stands under a name. `deletes` is
-- what dm.DeleteVolume answers for a number; the result is the number of the device deleted.
abbrev pub fields_of : Text → Text → Store → Result Error (Text × Text)
fields_of pod text db = elim (cut b':' text).1 [
  | some number ↦ ok ((cut b':' text).0, number)
  | none ↦ elim (get_pod_volume pod (cut b':' text).0 db) [
    | none ↦ err not_found
    | some stored ↦ elim (cut b':' stored).1 [
      | none ↦ err invalid
      | some number ↦ ok ((cut b':' stored).0, number)
    ]
  ]
]

abbrev pub delete_device :
    (ℤ → Bool) → Leveldb → Text → Result Error (Text × Text) → Store → Store × Result Error ℤ
delete_device deletes disk pod (err e) db = (db, err e)
delete_device deletes disk pod (ok (name, number)) db =
    let dev_id = atoi (parse_int 10 number) in
    let rest = delete_pod_volume disk pod name db in
    if deletes dev_id
    then (rest.0, if rest.1 then ok dev_id else err unrecorded)
    else (db, err undeleted)

unfoldable pub remove_volume : (ℤ → Bool) → Leveldb → Text → Text → Store → Store × Result Error ℤ
unfolding delete_pod_volume
remove_volume deletes disk pod text db = delete_device deletes disk pod (fields_of pod text db) db

-- DeleteVolumeId: the errors of RemoveVolume are not looked at. The numbers are those of the devices
-- that are deleted.
abbrev pub number_in : Result Error ℤ → List ℤ
number_in (err e) = []
number_in (ok n) = n ∷ []

unfoldable pub remove_each : (ℤ → Bool) → Leveldb → Text → List Text → Store → Store × List ℤ
unfolding remove_volume
remove_each deletes disk pod [] db = (db, [])
remove_each deletes disk pod (vol ∷ vols) db =
    let first = remove_volume deletes disk pod vol db in
    let rest = remove_each deletes disk pod vols first.0 in (rest.0, number_in first.1 ++ rest.1)

unfoldable pub delete_volume_id : (ℤ → Bool) → Leveldb → Text → Store → Store × List ℤ
unfolding remove_each list_pod_volumes delete_pod_volumes
delete_volume_id deletes disk pod db =
    let rest = remove_each deletes disk pod (list_pod_volumes pod db) db in
    (delete_pod_volumes disk pod rest.0, rest.1)
