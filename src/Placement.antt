-- ===== src/Placement.antt =====
-- daemon/pod/container.go: a container is put into the sandbox, started and waited for (addToSandbox,
-- start, waitFinish, associateToSandbox), on the status of Container and the volumes of Volume. What
-- the sandbox and the storage driver answer, and the time, are arguments. addToSandbox runs under
-- the resource lock of the pod, so that no other operation changes the status meanwhile.
pub mod Subscribing
pub mod Pending
pub mod Counting
pub mod Reached
pub mod Waiting
pub mod Status
use hyperd.Prelude.{
  ℕ, String, Bool, true, false, not, ◌&&◌, ◌==◌, string_eq, nat_eq, any, Option, none, some, List,
  [], ◌∷◌, Dict, lookup, insert, if◌then◌else◌,
}
use hyperd.Prelude.Int.{ℤ, pos}
use hyperd.Container.{
  ContainerStatus, StatusError, already_running, create, set_created, start, set_running, stopped,
  unexpected_stopped,
}
use hyperd.Container
use hyperd.Volume.{Volume, WaitGroup, Groups, subscribe_insert}
use hyperd.Volume
use hyperd.Volume.Notify.{Action, perform}

pub data Error : Type 0 where
  impossible_volume : Volume.Error → Error
  not_prepared volume_failed not_added not_started : Error
  status : StatusError → Error

abbrev pub member : String → List String → Bool
member n ns = any (λ m. m == n) ns

abbrev pub Volumes : Type 0
Volumes = Dict String Volume

-- The loop of addToSandbox over the volumes of the spec, for the wait group `g`: `volmap`, the
-- volumes of the pod, the wait groups and the error.
unfoldable pub subscribe_all :
    ℕ
    → List String
    → List String
    → Volumes
    → Groups
    → List String × Volumes × Groups × Option Volume.Error
unfolding subscribe_insert
subscribe_all g [] volmap vols w = (volmap, vols, w, none)
subscribe_all g (n ∷ ns) volmap vols w =
    let skip = subscribe_all g ns volmap vols w in
    if member n volmap then skip else elim (lookup n vols) [
      | none ↦ skip
      | some v ↦
          let (v', w', e) = subscribe_insert g v w in
          let rest = subscribe_all g ns (n ∷ volmap) (insert n v' vols) w' in
          elim e [ some x ↦ (n ∷ volmap, insert n v' vols, w', some x) | none ↦ rest ]
    ]

-- A critical section on one of the volumes of the pod.
unfoldable pub on_volume : String → Action → Volumes × Groups → Volumes × Groups
unfolding perform
on_volume n a (vols, w) = elim (lookup n vols) [
  | none ↦ (vols, w)
  | some v ↦ (insert n (perform a (v, w)).0 vols, (perform a (v, w)).1)
]

unfoldable pub on_volumes : List (String × Action) → Volumes × Groups → Volumes × Groups
unfolding on_volume
on_volumes [] s = s
on_volumes ((n, a) ∷ as') s = on_volumes as' (on_volume n a s)

-- What addToSandbox is answered: the root file system, and the sandbox.
pub record Answers : Type 0 where
  pub prepared : Bool
  pub added : Bool
  pub now : ℕ

abbrev pub is_nil {ℓ} : {A : Type ℓ} → List A → Bool
is_nil [] = true
is_nil (n ∷ ns) = false

-- (wg *WaitGroupWithFail) Wait: it does not return before the counter is 0, and then with an error
-- if one has been recorded.
pub data Waited : Type 0 where
  blocked succeeded failed : Waited

abbrev pub wait_group : WaitGroup → Waited
wait_group x = if not (x.counter == 0) then blocked else if is_nil x.errs then succeeded else failed

-- How far addToSandbox has come: it waits for the volumes, or it has ended.
pub data Progress : Type 0 where
  waits : Progress
  ends : Option Error → Progress

-- addToSandbox, once the volumes are there or need no waiting
abbrev pub add_container : Answers → ContainerStatus → ContainerStatus × Progress
add_container a cs =
    if not a.added
    then ((unexpected_stopped a.now cs).0, ends (some not_added))
    else ((set_created a.now cs).0, ends none)

-- addToSandbox, after the subscriptions, with the wait group as it is at the latest
unfoldable pub add_prepared :
    Answers → List String → WaitGroup → ContainerStatus → ContainerStatus × Progress
unfolding unexpected_stopped set_created
add_prepared a volmap x cs =
    let waited = if is_nil volmap then succeeded else wait_group x in
    if not a.prepared then (cs, ends (some not_prepared)) else elim waited [
      | blocked ↦ (cs, waits)
      | failed ↦ (cs, ends (some volume_failed))
      | succeeded ↦ add_container a cs
    ]

-- addToSandbox; `meanwhile` are the critical sections on the volumes that have run since its
-- subscriptions.
unfoldable pub add_to_sandbox :
    Answers
    → ℕ
    → List String
    → List (String × Action)
    → ContainerStatus
    → Volumes
    → Groups
    → ContainerStatus × Volumes × Groups × Progress
unfolding create subscribe_all add_prepared on_volumes
add_to_sandbox a g names meanwhile cs vols w =
    let cs1 = (create cs).0 in
    let (volmap, vols', w', e) = subscribe_all g names [] vols w in
    let (vols'', w'') = on_volumes meanwhile (vols', w') in
    let (cs2, r) = add_prepared a volmap (w'' g) cs1 in
    elim e [
      | some x ↦ (cs1, vols'', w'', ends (some (impossible_volume x)))
      | none ↦ (cs2, vols'', w'', r)
    ]

-- start, when the sandbox answers `started`
unfoldable pub start_container : Bool → ℕ → ContainerStatus → ContainerStatus × Option Error
unfolding start set_running
start_container started now cs =
    let (cs', e) = start cs in
    elim e [
      | none ↦ if started then ((set_running now cs').0, none) else (cs', some not_started)
      | some x ↦ elim x [ already_running ↦ (cs', none) | y ↦ (cs', some (status y)) ]
    ]

-- What WaitProcess returns: nothing, a channel that is closed, or one with the exit.
pub data Exit : Type 0 where
  no_channel closed : Exit
  exited : ℕ → ℤ → Exit

-- waitFinish: the status, and whether the streams and the logger are reset. With a timeout a
-- closed channel is not the end of the container.
unfoldable pub wait_finish : Bool → ℕ → Exit → ContainerStatus → ContainerStatus × Bool
unfolding stopped unexpected_stopped
wait_finish timeout now no_channel cs = unexpected_stopped now cs
wait_finish timeout now closed cs = if timeout then (cs, false) else unexpected_stopped now cs
wait_finish timeout now (exited t code) cs = stopped t code cs

-- associateToSandbox: what the sandbox answers, if it answers, is whether the container is alive.
unfoldable pub associate_to_sandbox : Option Bool → ℕ → ContainerStatus → ContainerStatus × Bool
associate_to_sandbox none now cs = (cs, false)
associate_to_sandbox (some alive) now cs =
    if alive
    then (record cs { state = Container.running; started_at = now }, true)
    else (record cs { state = Container.created; created_at = now }, true)
