-- ===== src/Tests/Work.antt =====
-- utils/sync.go, daemon/buffer: operations waited for, a container stopped, and containers created
-- in the background.
use hyperd.Prelude.{◌≡◌, ◌⊎◌, refl, true, false, none, some, List, [], ◌∷◌, nat_beq}
use hyperd.Prelude.Text.{Text, codes}
use hyperd.Registry.{new_pod_list}
use hyperd.Futures.{
  Error, failed, Event, result, expires, succeeds, fails, wait, Answers, exits, tick,
  stop_container,
}
use hyperd.Futures.Waiting.{succeeded, wait-succeeded, wait_returns}
use hyperd.Futures.Signals.{Sequence, stop_container-Sequence}
use hyperd.Buffer.{Request, Buffer, new_buffer, Action, arrives, hands_over, finishes, goes_on, run}
use hyperd.Buffer.Invariant.{IsBounded, run-new_buffer}

abbrev pending_ids : List Text
pending_ids = codes "c1" ∷ codes "c2" ∷ []

wait-succeeded_example :
    succeeded (codes "c1") (result (codes "c2") none ∷ result (codes "c1") none ∷ []) ≡ true
unfolding wait
wait-succeeded_example =
    wait-succeeded (result (codes "c2") none ∷ result (codes "c1") none ∷ []) pending_ids
      (codes "c1") refl refl

abbrev one_fails : List Event
one_fails = result (codes "c2") (some failed) ∷ result (codes "c1") none ∷ expires ∷ []

wait_returns_example :
    (wait one_fails pending_ids ≡ succeeds)
    ⊎ ((errs : List (Text × Error)) × (wait one_fails pending_ids ≡ fails errs))
wait_returns_example = wait_returns one_fails pending_ids (refl, (refl, tt))

-- A container that ignores its stop signal.
abbrev stubborn : Answers
stubborn = record { described = true; kill_fails = λ force. false; has_channel = true }

stop_container-Sequence_example :
    Sequence (nat_beq 10 0) (stop_container stubborn 10 (tick ∷ exits ∷ [])).0
stop_container-Sequence_example = stop_container-Sequence stubborn 10 (tick ∷ exits ∷ [])

abbrev first_request : Request
first_request = record { id = "tmp1"; pod = "web"; name = "nginx" }

abbrev second_request : Request
second_request = record { id = "tmp2"; pod = "web"; name = "cache" }

-- One goroutine and a channel for one container, which the second waits in.
abbrev small : Buffer
small = record {
  goroutines_limit = 1;
  capacity = 1;
  channel = [];
  container_buffers = [];
  registry = new_pod_list;
  arriving = [];
  handlers = [];
}

abbrev busy : List Action
busy =
    arrives true first_request
    ∷ hands_over 0
    ∷ arrives true second_request
    ∷ hands_over 0
    ∷ finishes 0 (some "c1")
    ∷ goes_on 0
    ∷ []

run-new_buffer_example : IsBounded 1 (run busy small)
unfolding new_buffer
run-new_buffer_example = run-new_buffer 1 1 new_pod_list small busy refl
