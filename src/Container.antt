-- ===== src/Container.antt =====
-- daemon/pod/container.go: the status of a container (`ContainerStatus`) and its transitions, the
-- queries on it, and the wait for the exit code. Each method is one critical section under the
-- status lock, so it is a function from the status to the status and its result. Times are
-- numbers, and `epoc_zero` is the zero `time.Time`.
pub mod Traces
pub mod Outcome
use hyperd.Prelude.{ℕ, Bool, true, false, Option, some, List, [], ◌∷◌, if◌then◌else◌, nat_beq}
use hyperd.Prelude.Int.{ℤ, pos, negsuc, uint8}

pub data ContainerState : Type 0 where
  none creating created running stopping : ContainerState

pub record ContainerStatus : Type 0 where
  pub state : ContainerState
  pub created_at : ℕ
  pub started_at : ℕ
  pub finished_at : ℕ
  pub exit_code : ℤ
  pub killed : Bool

abbrev pub epoc_zero : ℕ
epoc_zero = 0

-- newContainerStatus
unfoldable pub new_container_status : ContainerStatus
new_container_status = record {
  state = none;
  created_at = epoc_zero;
  started_at = epoc_zero;
  finished_at = epoc_zero;
  exit_code = pos 0;
  killed = false;
}

-- The errors of the transitions, with the state that they report.
pub data StatusError : Type 0 where
  not_none not_creating not_created not_running : ContainerState → StatusError
  already_running : StatusError

-- (cs *ContainerStatus) Create
unfoldable pub create : ContainerStatus → ContainerStatus × Option StatusError
create cs = elim cs.state [
  | none ↦ (record cs { state = creating }, Option.none)
  | s ↦ (cs, some (not_none s))
]

-- (cs *ContainerStatus) Created
unfoldable pub set_created : ℕ → ContainerStatus → ContainerStatus × Option StatusError
set_created t cs = elim cs.state [
  | creating ↦ (record cs { state = created; created_at = t }, Option.none)
  | s ↦ (cs, some (not_creating s))
]

-- (cs *ContainerStatus) Start
unfoldable pub start : ContainerStatus → ContainerStatus × Option StatusError
start cs = elim cs.state [
  | running ↦ (cs, some already_running)
  | created ↦ (record cs { killed = false; state = running }, Option.none)
  | s ↦ (cs, some (not_created s))
]

-- (cs *ContainerStatus) SetKilled
unfoldable pub set_killed : ContainerStatus → ContainerStatus
set_killed cs = record cs { killed = true }

-- (cs *ContainerStatus) Running
unfoldable pub set_running : ℕ → ContainerStatus → ContainerStatus × Option StatusError
set_running t cs = elim cs.state [
  | running ↦ (record cs { started_at = t }, Option.none)
  | s ↦ (cs, some (not_running s))
]

-- (cs *ContainerStatus) Stop
unfoldable pub stop : ContainerStatus → ContainerStatus × Option StatusError
stop cs = elim cs.state [
  | running ↦ (record cs { state = stopping }, Option.none)
  | s ↦ (cs, some (not_running s))
]

-- Is a process of the container recorded as running?
abbrev pub is_active : ContainerState → Bool
is_active running = true
is_active stopping = true
is_active _ = false

-- (cs *ContainerStatus) Stopped: the result says whether this call was the first to see the exit.
unfoldable pub stopped : ℕ → ℤ → ContainerStatus → ContainerStatus × Bool
stopped t code cs =
    if is_active cs.state
    then (record cs { finished_at = t; exit_code = code; state = created }, true)
    else (record cs { state = created }, false)

-- (cs *ContainerStatus) UnexpectedStopped, at the time `now`
unfoldable pub unexpected_stopped : ℕ → ContainerStatus → ContainerStatus × Bool
unfolding stopped
unexpected_stopped now = stopped now (pos 255)

-- (c *Container) IsAlive
unfoldable pub is_alive : ContainerStatus → Bool
is_alive cs = elim cs.state [ none ↦ false | stopping ↦ false | _ ↦ true ]

-- (cs *ContainerStatus) IsRunning, (c *Container) IsRunning
unfoldable pub is_running : ContainerStatus → Bool
is_running cs = elim cs.state [ running ↦ true | _ ↦ false ]

-- (cs *ContainerStatus) IsStopped, (c *Container) IsStopped
unfoldable pub is_stopped : ContainerStatus → Bool
is_stopped cs = elim cs.state [ created ↦ true | _ ↦ false ]

-- The `Status` of a `ContainerListResult`.
pub data Brief : Type 0 where
  pending up succeeded failed : Brief

abbrev pub is_zero : ℤ → Bool
is_zero (pos n) = nat_beq n 0
is_zero (negsuc n) = false

-- (c *Container) BriefStatus, its `Status` field; "running" is `up`.
unfoldable pub brief_status : ContainerStatus → Brief
brief_status cs = elim cs.state [
  | none ↦ pending
  | creating ↦ pending
  | running ↦ up
  | stopping ↦ up
  | created ↦
      if nat_beq cs.finished_at epoc_zero
      then pending
      else if is_zero cs.exit_code
      then succeeded
      else failed
]

-- What `GetExitCode` computes once it has left its loop.
unfoldable pub reported_code : ContainerStatus → ℕ
reported_code cs = if cs.killed then 137 else uint8 cs.exit_code

-- (c *Container) GetExitCode: the list holds the status at the call and at each wake-up by
-- `stateChanged`; the loop goes on to the next one while the state is not CREATED.
unfoldable pub get_exit_code : List ContainerStatus → Option ℕ
unfolding reported_code is_stopped
get_exit_code [] = Option.none
get_exit_code (cs ∷ later) =
    let rest = get_exit_code later in if is_stopped cs then some (reported_code cs) else rest

-- The calls that change a status.
pub data Event : Type 0 where
  on_create on_start on_kill on_stop : Event
  on_created on_running : ℕ → Event
  on_stopped : ℕ → ℤ → Event

-- One call, whatever it returns.
unfoldable pub step : Event → ContainerStatus → ContainerStatus
unfolding create set_created start set_killed set_running stop stopped
step on_create cs = (create cs).0
step (on_created t) cs = (set_created t cs).0
step on_start cs = (start cs).0
step on_kill cs = set_killed cs
step (on_running t) cs = (set_running t cs).0
step on_stop cs = (stop cs).0
step (on_stopped t code) cs = (stopped t code cs).0

unfoldable pub run : List Event → ContainerStatus → ContainerStatus
unfolding step
run [] cs = cs
run (e ∷ es) cs = run es (step e cs)
