-- ===== src/Placement/Status.antt =====
-- daemon/pod/container.go: the status of a container from its start to its exit.
use hyperd.Prelude.{ℕ, ◌≡◌, arith, Bool, true, false}
use hyperd.Container.{ContainerStatus, start, set_running, stopped, unexpected_stopped, is_stopped}
use hyperd.Placement.{start_container, Exit, wait_finish}

-- A container that its status lets start is started and ends: whatever the sandbox answers to the
-- start and however the process ends, one goroutine that waits for it without a timeout resets the
-- streams, no later one does, and then the status lets the container start again.
pub wait_finish-start_container :
    (started : Bool) (now t t' : ℕ) (x y : Exit) (cs : ContainerStatus)
    → is_stopped cs ≡ true
    → ((wait_finish false t x (start_container started now cs).0).1 ≡ true)
      × ((wait_finish false t' y (wait_finish false t x (start_container started now cs).0).0).1
          ≡ false)
      × (is_stopped (wait_finish false t x (start_container started now cs).0).0 ≡ true)
unfolding is_stopped start_container wait_finish start stopped unexpected_stopped set_running
wait_finish-start_container started now t t' x y cs h = ground (arith, h)
