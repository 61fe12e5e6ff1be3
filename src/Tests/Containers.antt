-- ===== src/Tests/Containers.antt =====
-- daemon/pod/container.go on concrete histories of a container's status.
use hyperd.Prelude.{◌+◌, ◌≡◌, refl, some, List, [], ◌∷◌, ◌++◌}
use hyperd.Prelude.Int.{pos, negsuc}
use hyperd.Container.{
  ContainerState, ContainerStatus, new_container_status, Event, on_start, on_kill, on_stop,
  on_stopped, run, get_exit_code,
}
use hyperd.Container.Traces.{active, count_starts, count_first_stops, run_accounting}
use hyperd.Container.Outcome.{get_exit_code-run}

abbrev ready : ContainerStatus
ready = record new_container_status { state = ContainerState.created; created_at = 5 }

abbrev killed_run : List Event
killed_run = on_stop ∷ on_kill ∷ []

run_accounting_example :
    active ready + count_starts (on_start ∷ on_stopped 9 (pos 0) ∷ []) ready
    ≡ count_first_stops (on_start ∷ on_stopped 9 (pos 0) ∷ []) ready
      + active (run (on_start ∷ on_stopped 9 (pos 0) ∷ []) ready)
run_accounting_example = run_accounting (on_start ∷ on_stopped 9 (pos 0) ∷ []) ready

get_exit_code-run_example :
    get_exit_code (run (on_start ∷ killed_run ++ on_stopped 9 (negsuc 0) ∷ []) ready ∷ [])
    ≡ some 137
get_exit_code-run_example = get_exit_code-run ready killed_run 9 (negsuc 0) [] refl (tt, (tt, tt))
