-- ===== src/Container/Traces.antt =====
-- daemon/pod/container.go: which transitions a container's status makes, over all histories of
-- calls by the goroutines that share it.
use hyperd.Prelude.{ℕ, ◌+◌, ◌≡◌, refl, Bool, true, false, Option, List, [], ◌∷◌, arith}
use hyperd.Prelude.Int.{ℤ}
use hyperd.Container.{
  ContainerState, none, creating, created, running, stopping, ContainerStatus, Event, on_create,
  on_created, on_start, on_kill, on_running, on_stop, on_stopped, StatusError, is_active, start,
  stopped, step, run,
}

-- The state diagram: the call that labels an edge, its two ends.
pub data Edge : Event → ContainerState → ContainerState → Type 0 where
  begin_create : Edge on_create none creating
  end_create : (t : ℕ) → Edge (on_created t) creating created
  launch : Edge on_start created running
  halt : Edge on_stop running stopping
  conclude : (t : ℕ) (code : ℤ) (s : ContainerState) → Edge (on_stopped t code) s created

-- Does the diagram have an edge for this call from this state?
unfoldable pub enabled : Event → ContainerState → Bool
enabled on_create none = true
enabled (on_created t) creating = true
enabled on_start created = true
enabled on_stop running = true
enabled (on_stopped t code) s = true
enabled _ _ = false

pub data Moves (e : Event) (s : ContainerState) (s' : ContainerState) : Type 0 where
  along : Edge e s s' → Moves e s s'
  stays : enabled e s ≡ false → s' ≡ s → Moves e s s'

abbrev table : Event → ContainerState → ContainerState
table on_create none = creating
table (on_created t) creating = created
table on_start created = running
table on_stop running = stopping
table (on_stopped t code) s = created
table _ s = s

step-table : (e : Event) (cs : ContainerStatus) → (step e cs).state ≡ table e cs.state
unfolding step
step-table on_create cs = ground arith
step-table (on_created t) cs = ground arith
step-table on_start cs = ground arith
step-table on_kill cs = ground arith
step-table (on_running t) cs = ground arith
step-table on_stop cs = ground arith
step-table (on_stopped t code) cs = ground arith

table-Moves : (e : Event) (s : ContainerState) → Moves e s (table e s)
unfolding enabled
table-Moves on_create none = along begin_create
table-Moves (on_created t) creating = along (end_create t)
table-Moves on_start created = along launch
table-Moves on_stop running = along halt
table-Moves (on_stopped t code) s = along (conclude t code s)
table-Moves _ s = stays refl refl

-- Every call on a container's status moves its state along the edge of the state diagram that
-- bears the call's name, if one leaves the state, and otherwise leaves the state as it is.
pub step-Moves : (e : Event) (cs : ContainerStatus) → Moves e cs.state (step e cs).state
step-Moves e cs = rw (step-table e cs) (table-Moves e cs.state)

abbrev bit : Bool → ℕ
bit true = 1
bit false = 0

abbrev is_nil : Option StatusError → Bool
is_nil Option.none = true
is_nil (Option.some e) = false

-- How many calls of `Start` in a history succeed.
unfoldable pub count_starts : List Event → ContainerStatus → ℕ
unfolding step
count_starts [] cs = 0
count_starts (on_start ∷ es) cs = bit (is_nil (start cs).1) + count_starts es (step on_start cs)
count_starts (e ∷ es) cs = count_starts es (step e cs)

-- How many calls of `Stopped` in a history return true.
unfoldable pub count_first_stops : List Event → ContainerStatus → ℕ
unfolding step
count_first_stops [] cs = 0
count_first_stops (on_stopped t code ∷ es) cs =
    bit (stopped t code cs).1 + count_first_stops es (step (on_stopped t code) cs)
count_first_stops (e ∷ es) cs = count_first_stops es (step e cs)

abbrev pub active : ContainerStatus → ℕ
active cs = bit (is_active cs.state)

-- Over any history of calls, in any order, the `Stopped` calls that return true (on which the
-- streams and the logger are cleaned up) are as many as the `Start` calls that succeed, counting
-- a container that is active at the beginning as started and one that is active at the end as
-- not yet stopped: each run of the container is cleaned up once.
pub run_accounting :
    (es : List Event) (cs : ContainerStatus)
    → active cs + count_starts es cs ≡ count_first_stops es cs + active (run es cs)
unfolding run step count_starts count_first_stops
run_accounting [] cs = omega arith
run_accounting (on_create ∷ es) cs = ground (arith, run_accounting es (step on_create cs))
run_accounting (on_created t ∷ es) cs = ground (arith, run_accounting es (step (on_created t) cs))
run_accounting (on_start ∷ es) cs = ground (arith, run_accounting es (step on_start cs))
run_accounting (on_kill ∷ es) cs = ground (arith, run_accounting es (step on_kill cs))
run_accounting (on_running t ∷ es) cs = ground (arith, run_accounting es (step (on_running t) cs))
run_accounting (on_stop ∷ es) cs = ground (arith, run_accounting es (step on_stop cs))
run_accounting (on_stopped t code ∷ es) cs =
    ground (arith, run_accounting es (step (on_stopped t code) cs))
