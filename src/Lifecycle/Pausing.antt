-- ===== src/Lifecycle/Pausing.antt =====
-- daemon/pod/decommission.go: pausing and stopping against each other.
use hyperd.Prelude.{◌≡◌, arith, Bool, true, false, not, none, if◌then◌else◌}
use hyperd.Registry.{running, paused, s_none}
use hyperd.Lifecycle.{
  PodLife, pause, unpause, pause_begin, pause_roll_back, unpause_begin, unpause_roll_back,
  stop_begin, do_stop_pod, cleanup, cleanup_begin, cleanup_end, remove,
}

-- If nothing else happens in between, a pod that is running is after a pause and an unpause, each
-- of which the sandbox may refuse, paused exactly if the pause was accepted and the unpause
-- refused, and running otherwise; its sandbox is the same.
pub pause-unpause :
    (refused_pause refused_unpause : Bool) (p : PodLife)
    → p.status ≡ running
    → (unpause (λ q. q) refused_unpause (pause (λ q. q) refused_pause p).0).0 ≡ record p {
      status = if not refused_pause then if refused_unpause then paused else running else running;
    }
unfolding pause unpause pause_begin pause_roll_back unpause_begin unpause_roll_back
pause-unpause refused_pause refused_unpause p h = ground arith

-- A removal that runs before the pod's cleanup is not undone by it: whatever the sandbox answered
-- to the stop, after a forced removal of any pod and then the cleanup the status is still none, and
-- the sandbox is dropped. The removal returns no error.
pub cleanup-remove :
    (between : PodLife → PodLife) (stopped_all shut_down : Bool) (p : PodLife)
    → ((remove between true stopped_all shut_down p).1 ≡ none)
      × (cleanup (λ q. q) (remove between true stopped_all shut_down p).0
          ≡ record { status = s_none; sandbox = false })
unfolding remove cleanup cleanup_begin cleanup_end
cleanup-remove between stopped_all shut_down p = ground arith

-- A stop that another goroutine attempts between the first section of a pause and its end makes no
-- difference: the pause's result and the pod's status are those of the pause alone, whatever the
-- sandbox answers to either.
pub pause-stop :
    (failed stopped_all shut_down : Bool) (p : PodLife)
    → pause (λ q. (do_stop_pod stopped_all shut_down q).0) failed p ≡ pause (λ q. q) failed p
unfolding pause pause_begin pause_roll_back do_stop_pod stop_begin
pause-stop failed stopped_all shut_down p = ground arith
