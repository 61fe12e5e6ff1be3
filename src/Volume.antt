-- ===== src/Volume.antt =====
-- daemon/pod/volume.go: a volume of a pod and its insertion into the sandbox, and
-- utils/sync.go: the wait groups on which containers wait for their volumes. A wait group is
-- shared by pointer: it is a number, and `Groups` is the heap of wait groups. What the mount
-- helpers and the sandbox answer is a parameter of each operation.
pub mod Notify
pub mod Insert
use hyperd.Prelude.{
  ℕ, ◌+◌, ◌-◌, String, Bool, true, false, ◌||◌, Option, none, some, List, [], ◌∷◌, ◌++◌, ◌==◌,
  nat_eq, if◌then◌else◌,
}

pub data VolumeState : Type 0 where
  created inserting inserted error : VolumeState

abbrev pub same_state : VolumeState → VolumeState → Bool
same_state created created = true
same_state inserting inserting = true
same_state inserted inserted = true
same_state error error = true
same_state _ _ = false

pub data Error : Type 0 where
  cannot_transit : VolumeState → VolumeState → Error
  mount_failed insert_failed umount_failed remove_failed in_use volume_in_error : Error

-- runv's VolumeDescription, as far as `umount` reads it
pub record Descript : Type 0 where
  pub fstype : String
  pub source : String

pub record Volume : Type 0 where
  pub name : String
  pub descript : Option Descript
  pub status : VolumeState
  pub insert_subscribers : List ℕ

-- newVolume
unfoldable pub new_volume : String → Volume
new_volume name = record { name = name; descript = none; status = created; insert_subscribers = [] }

-- utils/sync.go: WaitGroupWithFail
pub record WaitGroup : Type 0 where
  pub counter : ℕ
  pub errs : List Error

abbrev pub Groups : Type 0
Groups = ℕ → WaitGroup

abbrev pub update : Groups → ℕ → WaitGroup → Groups
update w g x j = if g == j then x else w j

-- sync.WaitGroup: Add(1) and Done
unfoldable pub add_one : ℕ → Groups → Groups
add_one g w = update w g (record (w g) { counter = (w g).counter + 1 })

unfoldable pub done : ℕ → Groups → Groups
done g w = update w g (record (w g) { counter = (w g).counter - 1 })

-- (wg *WaitGroupWithFail) Fail
unfoldable pub fail : Error → ℕ → Groups → Groups
fail e g w = update w g (record { counter = (w g).counter - 1; errs = (w g).errs ++ e ∷ [] })

unfoldable pub done_all : List ℕ → Groups → Groups
unfolding done
done_all [] w = w
done_all (g ∷ gs) w = done_all gs (done g w)

unfoldable pub fail_all : Error → List ℕ → Groups → Groups
unfolding fail
fail_all e [] w = w
fail_all e (g ∷ gs) w = fail_all e gs (fail e g w)

-- unlockedTransit, and transit, which takes the lock around it: `changed` and the error
unfoldable pub unlocked_transit :
    VolumeState
    → (VolumeState → Bool)
    → (VolumeState → Bool)
    → Volume
    → Volume × Bool × Option Error
unlocked_transit to from ignore v =
    if ignore v.status || same_state v.status to
    then (v, false, none)
    else if from v.status
    then (record v { status = to }, true, none)
    else (v, false, some (cannot_transit v.status to))

unfoldable pub set_inserted : Volume → Groups → Volume × Groups
unfolding unlocked_transit done_all
set_inserted v w =
    let (v', changed, e) = unlocked_transit inserted (same_state inserting) (λ _. false) v in
    (record v' { insert_subscribers = [] }, done_all v.insert_subscribers w)

unfoldable pub set_insert_fail : Error → Volume → Groups → Volume × Groups
unfolding unlocked_transit fail_all
set_insert_fail err v w =
    let (v', changed, e) = unlocked_transit error (same_state inserting) (λ _. false) v in
    (record v' { insert_subscribers = [] }, fail_all err v.insert_subscribers w)

-- mount: `probed` is what ProbeExistingVolume returns.
unfoldable pub mount : Option Descript → Volume → Volume × Option Error
mount none v = (record v { descript = none }, some mount_failed)
mount (some d) v = (record v { descript = some d }, none)

abbrev umount_fails : Option Descript → Bool → Bool
umount_fails none umounted = false
umount_fails (some d) true = false
umount_fails (some d) false = true

-- umount: `umounted` says whether UmountExistingVolume succeeds.
unfoldable pub umount : Bool → Volume → Volume × Option Error
umount umounted v =
    if umount_fails v.descript umounted
    then (record v { status = error }, some umount_failed)
    else (record v { status = created }, none)

-- insert: `added` says whether the sandbox's AddVolume succeeds.
unfoldable pub insert : Bool → Option Error
insert true = none
insert false = some insert_failed

-- The part of `add` behind the transition to INSERTING, with its deferred calls.
add_inserting : Option Descript → Bool → Bool → Volume → Groups → Volume × Groups × Option Error
unfolding set_inserted set_insert_fail mount umount insert
add_inserting probed added umounted v w =
    let (v1, e1) = mount probed v in
    elim e1 [
      | some e ↦ let (v2, w2) = set_insert_fail e v1 w in (v2, w2, some e)
      | none ↦ elim (insert added) [
        | some e ↦
            let (v2, e2) = umount umounted v1 in
            let (v3, w3) = set_insert_fail e v2 w in (v3, w3, some e)
        | none ↦ let (v2, w2) = set_inserted v1 w in (v2, w2, none)
      ]
    ]

-- The transition with which `add` begins.
unfoldable pub begin_add : Volume → Volume × Bool × Option Error
unfolding unlocked_transit
begin_add =
    unlocked_transit inserting (same_state created)
      (λ s. same_state s inserting || same_state s inserted)

unfoldable pub add :
    Option Descript → Bool → Bool → Volume → Groups → Volume × Groups × Option Error
unfolding add_inserting begin_add
add probed added umounted v w =
    let (v1, changed, e) = begin_add v in
    if changed then add_inserting probed added umounted v1 w else (v1, w, e)

unfoldable pub subscribe_insert : ℕ → Volume → Groups → Volume × Groups × Option Error
unfolding add_one
subscribe_insert g v w = elim v.status [
  | inserted ↦ (v, w, none)
  | error ↦ (v, w, some volume_in_error)
  | _ ↦ (record v { insert_subscribers = v.insert_subscribers ++ g ∷ [] }, add_one g w, none)
]

-- What the sandbox's RemoveVolume answers.
pub data Removal : Type 0 where
  success busy failure : Removal

unfoldable pub try_remove_from_sandbox : Removal → Volume → Volume × Bool × Option Error
try_remove_from_sandbox success v = (record v { status = created }, true, none)
try_remove_from_sandbox busy v = (v, false, none)
try_remove_from_sandbox failure v = (v, false, some remove_failed)

unfoldable pub remove_from_sandbox : Removal → Volume → Volume × Option Error
unfolding try_remove_from_sandbox
remove_from_sandbox r v =
    let (v', removed, e) = try_remove_from_sandbox r v in
    elim e [ some x ↦ (v', some x) | none ↦ if removed then (v', none) else (v', some in_use) ]
