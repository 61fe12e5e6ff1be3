-- ===== src/Lifecycle/Sections.antt =====
-- daemon/pod/provision.go, decommission.go: interleavings of the critical sections on a pod's
-- status.
use hyperd.Prelude.{ℕ, ◌+◌, ◌≤◌, ◌≢◌, arith, Bool, true, List, [], ◌∷◌}
use hyperd.Registry.{PodState, starting, running, paused}
use hyperd.Lifecycle.{
  PodLife, Section, creates, reconnects, stops, step, run, goes_on, stop_begin, create_begin,
  set_pod_init_status, reconnect_sandbox, pause_begin, pause_roll_back, unpause_begin,
  unpause_roll_back, cleanup_begin, cleanup_end, fail_removal, again, wait_pod_run,
}

-- One for a pod whose sandbox is in use: starting, running or paused.
abbrev pub in_use : PodState → ℕ
in_use starting = 1
in_use running = 1
in_use paused = 1
in_use _ = 0

-- One if the section creates or reconnects a sandbox.
abbrev pub creation : Section → ℕ
creation creates = 1
creation (reconnects true) = 1
creation _ = 0

abbrev pub creations : List Section → ℕ
creations [] = 0
creations (e ∷ es) = creation e + creations es

-- One if the section is a stop that goes on to stop the containers and the sandbox.
abbrev pub stop_here : Section → PodLife → ℕ
stop_here stops p = elim (stop_begin p).1 [ goes_on ↦ 1 | _ ↦ 0 ]
stop_here _ p = 0

abbrev pub stops_of : List Section → PodLife → ℕ
stops_of [] p = 0
stops_of (e ∷ es) p = stop_here e p + stops_of es (step e p)

step-in_use :
    (e : Section) (p : PodLife)
    → stop_here e p + in_use (step e p).status ≤ creation e + in_use p.status
unfolding step create_begin set_pod_init_status reconnect_sandbox pause_begin pause_roll_back
    unpause_begin unpause_roll_back stop_begin cleanup_begin cleanup_end fail_removal
step-in_use e p = ground arith

-- On any interleaving of the critical sections that write a pod's status, the stops that go on to
-- stop the containers and the sandbox, and one for a pod that is starting, running or paused at
-- the end, are together at most as many as the sandboxes created or reconnected, and one for a pod
-- that is starting, running or paused at the beginning.
pub stops-creations :
    (es : List Section) (p : PodLife)
    → stops_of es p + in_use (run es p).status ≤ creations es + in_use p.status
unfolding run
stops-creations [] p = omega arith
stops-creations (e ∷ es) p = omega (arith, stops-creations es (step e p), step-in_use e p)

-- The section is not the beginning of a creation.
abbrev pub NotCreation : Section → Type 0
NotCreation e = e ≢ creates

pub step-decides :
    (e : Section) (p : PodLife)
    → NotCreation e
    → wait_pod_run p ≢ again
    → wait_pod_run (step e p) ≢ again
unfolding step create_begin set_pod_init_status reconnect_sandbox pause_begin pause_roll_back
    unpause_begin unpause_roll_back stop_begin cleanup_begin cleanup_end fail_removal wait_pod_run
step-decides e p n h = ground arith

pub init-decides : (b : Bool) (p : PodLife) → wait_pod_run (set_pod_init_status b p) ≢ again
unfolding set_pod_init_status wait_pod_run
init-decides b p = ground arith
