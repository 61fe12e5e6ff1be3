-- ===== src/Futures.antt =====
-- utils/sync.go: FutureSet, operations that run in goroutines and are waited for together; and
-- daemon/pod/decommission.go: the operation that stops one container, which stopContainers adds to
-- such a set. What comes on the channels is a list of events; the channel of a set is never closed.
pub mod Fresh
pub mod Waiting
pub mod Signals
use hyperd.Prelude.{
  ℕ, zero, suc, ◌+◌, Bool, true, false, not, ◌&&◌, Option, none, some, List, [], ◌∷◌, ◌++◌, ◌==◌,
  any, filter, if◌then◌else◌, nat_beq, map,
}
use hyperd.Prelude.Text.{Text, text_eq}

pub data Error : Type 0 where
  timeout failed cannot_wait chan_broken : Error

-- The identifiers of the wait list, a map whose values are all true.
abbrev pub waits : Text → List Text → Bool
waits id ids = any (λ i. i == id) ids

unfoldable pub is_finished : List Text → Bool
is_finished [] = true
is_finished (id ∷ ids) = false

-- The loop of Add that looks for a new identifier; `rand i` is the i-th random string, and `none`
-- means that the fuel ran out.
unfoldable pub fresh_id : ℕ → (ℕ → Text) → ℕ → Text → List Text → Option Text
fresh_id zero rand i id ids = none
fresh_id (suc fuel) rand i id ids =
    let rest = fresh_id fuel rand (i + 1) (id ++ rand i) ids in
    if waits id ids then rest else some id

-- Add: the wait list with the new identifier.
unfoldable pub add : ℕ → (ℕ → Text) → Text → List Text → Option (List Text)
unfolding fresh_id
add fuel rand id ids = elim (fresh_id fuel rand 0 id ids) [ none ↦ none | some i ↦ some (i ∷ ids) ]

-- What Wait receives: the result of an operation, or the timeout.
pub data Event : Type 0 where
  result : Text → Option Error → Event
  expires : Event

-- Wait: `pending` if it waits for more events.
pub data Waited : Type 0 where
  succeeds pending times_out : Waited
  fails : List (Text × Error) → Waited

abbrev pub finish : List (Text × Error) → Waited
finish [] = succeeds
finish (e ∷ errs) = fails (e ∷ errs)

-- `delete(fs.waitList, id)`
abbrev pub remove : Text → List Text → List Text
remove id ids = filter (λ i. not (i == id)) ids

-- `if r.err != nil { errs[r.id] = r.err }`
abbrev pub record_error : Text → Option Error → List (Text × Error) → List (Text × Error)
record_error id none errs = errs
record_error id (some e) errs = errs ++ (id, e) ∷ []

-- Wait
unfoldable pub wait_loop : List Event → List Text → List (Text × Error) → Waited
wait_loop events [] errs = finish errs
wait_loop [] (i ∷ ids) errs = pending
wait_loop (expires ∷ events) (i ∷ ids) errs = times_out
wait_loop (result id e ∷ events) (i ∷ ids) errs =
    wait_loop events (remove id (i ∷ ids)) (record_error id e errs)

unfoldable pub wait : List Event → List Text → Waited
unfolding wait_loop
wait events ids = wait_loop events ids []

pub data Signal : Type 0 where
  stop_signal kill_signal : Signal

abbrev pub signal_of : Bool → Signal
signal_of true = kill_signal
signal_of false = stop_signal

-- What the sandbox makes of a container that is stopped: whether the container has a description,
-- whether a kill fails, by its force, while the container still runs, and whether WaitProcess
-- returns a channel.
pub record Answers : Type 0 where
  pub described : Bool
  pub kill_fails : Bool → Bool
  pub has_channel : Bool

-- daemon/pod/container.go: terminate, the signals sent so far and whether it fails.
unfoldable pub terminate : Answers → Bool → List Signal → List Signal × Bool
terminate a force sent =
    if a.described then (sent ++ signal_of force ∷ [], a.kill_fails force) else (sent, false)

-- What the operation receives while it waits: the exit of the process, the end of the channel, or
-- the timeout.
pub data Tick : Type 0 where
  exits broken tick : Tick

-- The operation: the signals that it sent and its error, or nothing while it waits.
abbrev pub Stopped : Type 0
Stopped = List Signal × Option (Option Error)

unfoldable pub wait_exit : Answers → List Tick → Bool → List Signal → Stopped
unfolding terminate
wait_exit a [] force sent = (sent, none)
wait_exit a (exits ∷ ticks) force sent = (sent, some none)
wait_exit a (broken ∷ ticks) force sent = (sent, some (some chan_broken))
wait_exit a (tick ∷ ticks) force sent =
    let (sent', err) = terminate a true sent in
    let rest = wait_exit a ticks true sent' in
    if force then (sent, some (some timeout)) else if err then (sent', some (some failed)) else rest

wait_from : Answers → List Tick → Bool → List Signal → Stopped
unfolding wait_exit
wait_from a ticks force sent =
    if a.has_channel then wait_exit a ticks force sent else (sent, some (some cannot_wait))

-- The function that stopContainers adds for a container.
unfoldable pub stop_container : Answers → ℕ → List Tick → Stopped
unfolding terminate wait_from
stop_container a graceful ticks =
    let force = nat_beq graceful 0 in
    let (sent, err) = terminate a force [] in
    let (sent', err') = terminate a true sent in
    if err && not force
    then if err' then (sent', some (some failed)) else wait_from a ticks true sent'
    else wait_from a ticks force sent
