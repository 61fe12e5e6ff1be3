-- ===== src/Lifecycle.antt =====
-- daemon/pod/provision.go, decommission.go, pod.go: the status of a pod. A method that takes the
-- status lock more than once is several critical sections, between which those of other
-- goroutines run; a composed operation has what they do as its argument `between`. What the
-- sandbox answers is an argument too.
pub mod Sections
pub mod Pausing
pub mod Waiters
use hyperd.Prelude.{
  ℕ, suc, zero, ◌+◌, Bool, true, false, not, ◌||◌, Option, none, some, List, [], ◌∷◌, if◌then◌else◌,
}
use hyperd.Registry.{
  PodState, s_none, starting, running, paused, stopped, stopping, error, same_state,
}

-- The fields of an `XPod` that these methods write; `sandbox` tells whether it is not nil.
pub record PodLife : Type 0 where
  pub status : PodState
  pub sandbox : Bool

pub data Error : Type 0 where
  not_valid not_alive shutdown_failed sandbox_failed pod_running not_running : Error

unfoldable pub is_none : PodLife → Bool
is_none p = same_state p.status s_none

unfoldable pub is_running : PodLife → Bool
is_running p = same_state p.status running

unfoldable pub is_alive : PodLife → Bool
is_alive p = same_state p.status running || same_state p.status starting

unfoldable pub is_stopped : PodLife → Bool
is_stopped p = same_state p.status stopped

-- createSandbox, once the sandbox is started
unfoldable pub create_begin : PodLife → PodLife
create_begin p = record { status = starting; sandbox = true }

-- setPodInitStatus, what it does to the status; Waiters has its Broadcast.
unfoldable pub set_pod_init_status : Bool → PodLife → PodLife
set_pod_init_status true p = elim p.status [ starting ↦ record p { status = running } | _ ↦ p ]
set_pod_init_status false p = record p { status = stopping }

-- createSandbox: `started` is whether startSandbox gives a sandbox, `inited` whether InitSandbox
-- succeeds.
unfoldable pub create_sandbox : (PodLife → PodLife) → Bool → Bool → PodLife → PodLife × Option Error
unfolding create_begin set_pod_init_status
create_sandbox between started inited p = if not started then (p, some sandbox_failed) else (
  set_pod_init_status inited (between (create_begin p)),
  if inited then none else some sandbox_failed,
)

-- reconnectSandbox: `associated` is whether there is a sandbox to associate with.
unfoldable pub reconnect_sandbox : Bool → PodLife → PodLife
reconnect_sandbox true p = record { status = running; sandbox = true }
reconnect_sandbox false p = record p { status = stopped }

-- One round of the loop of waitPodRun.
pub data Wait : Type 0 where
  proceed again fail : Wait

unfoldable pub wait_pod_run : PodLife → Wait
wait_pod_run p = elim p.status [
  | running ↦ proceed
  | paused ↦ proceed
  | starting ↦ again
  | _ ↦ fail
]

-- Pause: its first section, and whether it goes on.
unfoldable pub pause_begin : PodLife → PodLife × Bool
pause_begin p = elim p.status [ running ↦ (record p { status = paused }, true) | _ ↦ (p, false) ]

unfoldable pub pause_roll_back : PodLife → PodLife
pause_roll_back p = elim p.status [ paused ↦ record p { status = running } | _ ↦ p ]

-- Pause: `failed` is whether the sandbox's operation fails.
unfoldable pub pause : (PodLife → PodLife) → Bool → PodLife → PodLife × Option Error
unfolding pause_begin pause_roll_back
pause between failed p =
    let (q, continues) = pause_begin p in
    if not continues
    then (p, some not_valid)
    else if failed
    then (pause_roll_back (between q), some sandbox_failed)
    else (between q, none)

unfoldable pub unpause_begin : PodLife → PodLife × Bool
unpause_begin p = elim p.status [ paused ↦ (record p { status = running }, true) | _ ↦ (p, false) ]

unfoldable pub unpause_roll_back : PodLife → PodLife
unpause_roll_back p = elim p.status [ running ↦ record p { status = paused } | _ ↦ p ]

-- UnPause
unfoldable pub unpause : (PodLife → PodLife) → Bool → PodLife → PodLife × Option Error
unfolding unpause_begin unpause_roll_back
unpause between failed p =
    let (q, continues) = unpause_begin p in
    if not continues
    then (p, some not_valid)
    else if failed
    then (unpause_roll_back (between q), some sandbox_failed)
    else (between q, none)

-- The first section of doStopPod.
pub data Stopping : Type 0 where
  goes_on is_stopping refused : Stopping

unfoldable pub stop_begin : PodLife → PodLife × Stopping
stop_begin p = elim p.status [
  | stopping ↦ (p, is_stopping)
  | running ↦ (record p { status = stopping }, goes_on)
  | starting ↦ (record p { status = stopping }, goes_on)
  | _ ↦ (p, refused)
]

-- doStopPod: `stopped_all` is whether all containers stop, `shut_down` whether the sandbox does.
unfoldable pub do_stop_pod : Bool → Bool → PodLife → PodLife × Option Error
unfolding stop_begin
do_stop_pod stopped_all shut_down p =
    let (q, decision) = stop_begin p in
    elim decision [
      | is_stopping ↦ (q, none)
      | refused ↦ (q, some not_alive)
      | goes_on ↦
          if not stopped_all
          then (q, none)
          else if shut_down
          then (q, none)
          else (q, some shutdown_failed)
    ]

-- The first section of cleanup, and whether it goes on.
unfoldable pub cleanup_begin : PodLife → PodLife × Bool
cleanup_begin p = elim p.status [
  | stopped ↦ (p, false)
  | s_none ↦ (p, true)
  | _ ↦ (record p { status = stopping }, true)
]

-- The rest of cleanup: decommissionResources drops the sandbox, and the pod is tagged as stopped.
unfoldable pub cleanup_end : PodLife → PodLife
cleanup_end p = elim p.status [
  | s_none ↦ record p { sandbox = false }
  | _ ↦ record { status = stopped; sandbox = false }
]

unfoldable pub cleanup : (PodLife → PodLife) → PodLife → PodLife
unfolding cleanup_begin cleanup_end
cleanup between p =
    let (q, continues) = cleanup_begin p in if continues then cleanup_end (between q) else p

-- Remove, its changes of the status: `between` is what happens between the stop and the removal.
unfoldable pub remove : (PodLife → PodLife) → Bool → Bool → Bool → PodLife → PodLife × Option Error
unfolding is_running do_stop_pod
remove between force stopped_all shut_down p =
    let stop = (do_stop_pod stopped_all shut_down p).0 in
    if not (is_running p)
    then (record p { status = s_none }, none)
    else if not force
    then (p, some pod_running)
    else (record (between stop) { status = s_none }, none)

-- The deferred function of RemoveContainer on an error.
unfoldable pub fail_removal : PodLife → PodLife
fail_removal p = record p { status = error }

-- The critical sections of the methods.
pub data Section : Type 0 where
  creates : Section
  inits : Bool → Section
  reconnects : Bool → Section
  pauses rolls_back_pause unpauses rolls_back_unpause stops cleans_up ends_cleanup removes
        fails_removal :
      Section

unfoldable pub step : Section → PodLife → PodLife
unfolding create_begin set_pod_init_status reconnect_sandbox pause_begin pause_roll_back
    unpause_begin unpause_roll_back stop_begin cleanup_begin cleanup_end fail_removal
step creates p = create_begin p
step (inits b) p = set_pod_init_status b p
step (reconnects b) p = reconnect_sandbox b p
step pauses p = (pause_begin p).0
step rolls_back_pause p = pause_roll_back p
step unpauses p = (unpause_begin p).0
step rolls_back_unpause p = unpause_roll_back p
step stops p = (stop_begin p).0
step cleans_up p = (cleanup_begin p).0
step ends_cleanup p = cleanup_end p
step removes p = record p { status = s_none }
step fails_removal p = fail_removal p

-- An interleaving of critical sections.
unfoldable pub run : List Section → PodLife → PodLife
unfolding step
run [] p = p
run (e ∷ es) p = run es (step e p)
