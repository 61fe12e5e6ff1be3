-- ===== src/Exec.antt =====
-- daemon/pod/exec.go: the commands that are run in a container, and their exit codes. The channel
-- of an exec has room for one value. A caller of GetExecExitCode takes the value and puts it back in
-- two steps, so that others can come between. What the sandbox does with the process, its streams
-- and its signals is left out.
pub mod Codes
use hyperd.Prelude.{
  ℕ, zero, suc, ◌+◌, Bool, true, false, Option, none, some, List, [], ◌∷◌, ◌++◌, Dict, lookup,
  insert, delete, length, ltb, if◌then◌else◌, Result, ok, err,
}
use hyperd.Prelude.Text.{Text, text_eq, codes}
use hyperd.Prelude.Int.{ℤ, pos, uint8}

-- Exec; `full` says whether the channel has a value, `taken` counts the callers that have taken one
-- and not put it back, and `answers` are the codes returned so far.
pub record Exec : Type 0 where
  pub container : Text
  pub cmds : List Text
  pub terminal : Bool
  pub exit_code : ℕ
  pub full : Bool
  pub taken : ℕ
  pub answers : List ℕ

abbrev pub Execs : Type 0
Execs = Dict Text Exec

pub data Error : Type 0 where
  no_container dead_container undecodable no_exec panicked timeout : Error

abbrev pub new_exec : Text → List Text → Bool → Exec
new_exec container cmds terminal = record {
  container = container;
  cmds = cmds;
  terminal = terminal;
  exit_code = 255;
  full = false;
  taken = 0;
  answers = [];
}

-- CreateExec, with the containers of the pod and whether each is alive, what encoding/json makes of
-- the command, and the id drawn; an id of a container with less than twelve bytes is a panic.
unfoldable pub create_exec :
    Dict Text Bool → Text → Option (List Text) → Bool → Text → Execs → Execs × Result Error Text
create_exec containers container cmds terminal id execs = elim (lookup container containers) [
  | none ↦ (execs, err no_container)
  | some alive ↦
      if alive
      then elim cmds [
        | none ↦ (execs, err undecodable)
        | some command ↦
            if ltb (length container) 12
            then (execs, err panicked)
            else (insert id (new_exec container command terminal) execs, ok id)
      ]
      else (execs, err dead_container)
]

-- What happens at an exec: StartExec empties the channel; the process ends with a code, or cannot be
-- waited for; a caller takes the value of the channel, puts it back and returns, or gives up.
pub data Event : Type 0 where
  start interrupted take put_back give_up : Event
  terminated : ℤ → Event

-- A step; `none` where it has to wait.
unfoldable pub step : Event → Exec → Option Exec
step start e = some (record e { full = false })
step interrupted e = some e
step give_up e = some e
step (terminated r) e = some (record e { exit_code = uint8 r; full = true })
step take e = if e.full then some (record e { full = false; taken = e.taken + 1 }) else none
step put_back e = elim e.taken [
  | zero ↦ none
  | suc n ↦
      if e.full
      then none
      else some (record e { full = true; taken = n; answers = e.answers ++ e.exit_code ∷ [] })
]

unfoldable pub run : List Event → Exec → Option Exec
unfolding step
run [] e = some e
run (x ∷ xs) e = elim (step x e) [ none ↦ none | some e' ↦ run xs e' ]

-- StartExec, up to the point where the process is added
unfoldable pub start_exec : Dict Text Bool → Text → Text → Execs → Execs × Option Error
unfolding step
start_exec containers container id execs = elim (lookup container containers) [
  | none ↦ (execs, some no_container)
  | some alive ↦ elim (lookup id execs) [
    | none ↦ (execs, some no_exec)
    | some e ↦ (insert id (record e { full = false }) execs, none)
  ]
]

-- GetExecExitCode with nobody between its steps: the code and the error. A caller that finds the
-- channel empty gives up after ten seconds.
unfoldable pub get_exec_exit_code : Text → Execs → ℕ × Option Error
get_exec_exit_code id execs = elim (lookup id execs) [
  | none ↦ (255, some no_exec)
  | some e ↦ if e.full then (e.exit_code, none) else (255, some timeout)
]

-- DeleteExec, CleanupExecs
unfoldable pub delete_exec : Text → Execs → Execs
delete_exec id execs = delete id execs

abbrev pub cleanup_execs : Execs → Execs
cleanup_execs execs = []
