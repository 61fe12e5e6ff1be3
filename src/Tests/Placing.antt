-- ===== src/Tests/Placing.antt =====
-- daemon/pod/container.go: two containers that wait for a volume, and one that runs.
use hyperd.Prelude.{◌≡◌, refl, String, true, false, List, [], ◌∷◌, string_eq}
use hyperd.Prelude.Int.{pos}
use hyperd.Container
use hyperd.Container.{ContainerStatus, is_stopped}
use hyperd.Volume.{new_volume, Groups}
use hyperd.Volume.Notify.{Action, on_begin, on_inserted, on_subscribe}
use hyperd.Placement.{Volumes, Answers, start_container, exited, closed, wait_finish}
use hyperd.Placement.Status.{wait_finish-start_container}

abbrev two_volumes : Volumes
unfolding new_volume
two_volumes = ("data", new_volume "data") ∷ ("logs", new_volume "logs") ∷ []

abbrev no_groups : Groups
no_groups g = record { counter = 0; errs = [] }

abbrev refused : Answers
refused = record { prepared = true; added = false; now = 7 }

-- The spec mounts the first volume at two places; the other container has the group 2.
abbrev names : List String
names = "data" ∷ "logs" ∷ "data" ∷ []

-- The first volume is inserted, and the container still waits for the second.
abbrev meanwhile : List (String × Action)
meanwhile = ("data", on_subscribe 2) ∷ ("data", on_begin) ∷ ("data", on_inserted) ∷ []

abbrev ready : ContainerStatus
ready = record {
  state = Container.created;
  created_at = 3;
  started_at = 0;
  finished_at = 0;
  exit_code = pos 0;
  killed = false;
}

abbrev ended : ContainerStatus
ended = (wait_finish false 9 (exited 8 (pos 1)) (start_container true 5 ready).0).0

wait_finish-start_container_example :
    ((wait_finish false 9 (exited 8 (pos 1)) (start_container true 5 ready).0).1 ≡ true)
    × ((wait_finish false 10 closed ended).1 ≡ false)
    × (is_stopped ended ≡ true)
unfolding is_stopped
wait_finish-start_container_example =
    wait_finish-start_container true 5 9 10 (exited 8 (pos 1)) closed ready refl
