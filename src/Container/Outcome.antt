-- ===== src/Container/Outcome.antt =====
-- daemon/pod/container.go: the outcome that is reported for one run of a container.
use hyperd.Prelude.{
  ℕ, ◌≡◌, refl, Bool, true, false, some, List, [], ◌∷◌, ◌++◌, arith, if◌then◌else◌, ◌≢◌,
}
use hyperd.Prelude.Int.{ℤ, uint8}
use hyperd.Container.{
  created, ContainerStatus, Event, on_create, on_created, on_start, on_kill, on_running, on_stop,
  on_stopped, succeeded, failed, is_active, is_zero, brief_status, get_exit_code, step, run,
}

-- The calls that happen while a run lasts: all but a new start and the exit itself.
abbrev pub Within : Event → Type 0
Within on_start = ⊥
Within (on_stopped t code) = ⊥
Within _ = Unit {0}

abbrev pub AllWithin : List Event → Type 0
AllWithin [] = Unit {0}
AllWithin (e ∷ es) = Within e × AllWithin es

abbrev kills : Event → Bool
kills on_kill = true
kills _ = false

abbrev pub has_kill : List Event → Bool
has_kill [] = false
has_kill (e ∷ es) = if kills e then true else has_kill es

record Lasts (cs : ContainerStatus) (killed : Bool) : Type 0 where
  lasting : is_active cs.state ≡ true
  marked : cs.killed ≡ killed

step-Lasts :
    (e : Event) (cs : ContainerStatus) (k : Bool)
    → Within e
    → Lasts cs k
    → Lasts (step e cs) (if kills e then true else k)
unfolding step
step-Lasts on_create cs k w h = ground arith
step-Lasts (on_created t) cs k w h = ground arith
step-Lasts on_kill cs k w h = ground arith
step-Lasts (on_running t) cs k w h = ground arith
step-Lasts on_stop cs k w h = ground arith
step-Lasts on_start cs k w h = absurd w
step-Lasts (on_stopped t code) cs k w h = absurd w

run-Lasts :
    (es : List Event) (cs : ContainerStatus) (k : Bool)
    → AllWithin es
    → Lasts cs k
    → Lasts (run es cs) (if k then true else has_kill es)
unfolding run
run-Lasts [] cs k w h = ground arith
run-Lasts (e ∷ es) cs k w h =
    ground
      (arith, run-Lasts es (step e cs) (if kills e then true else k) w.1 (step-Lasts e cs k w.0 h))

run-append : (es fs : List Event) (cs : ContainerStatus) → run (es ++ fs) cs ≡ run fs (run es cs)
unfolding run
run-append [] fs cs = refl
run-append (e ∷ es) fs cs = run-append es fs (step e cs)

-- One run of a container: it is started from CREATED, any calls but a start and an exit follow,
-- and then the exit of its process is reported with the code `code` at the time `t`. A caller of
-- GetExitCode that looks then gets 137 if the container was marked to be killed during this run,
-- whatever happened in runs before, and otherwise the low eight bits of the code.
pub get_exit_code-run :
    (cs : ContainerStatus) (es : List Event) (t : ℕ) (code : ℤ) (later : List ContainerStatus)
    → cs.state ≡ created
    → AllWithin es
    → get_exit_code (run (on_start ∷ es ++ on_stopped t code ∷ []) cs ∷ later)
      ≡ some (if has_kill es then 137 else uint8 code)
unfolding get_exit_code run step
get_exit_code-run cs es t code later h w =
    rw (run-append es (on_stopped t code ∷ []) (step on_start cs)) (ground (arith, facts))
  where
    started : Lasts (step on_start cs) false
    started = ground arith

    facts : Lasts (run es (step on_start cs)) (has_kill es)
    facts = run-Lasts es (step on_start cs) false w started

-- After a run of a container that started from CREATED, saw any calls but a start and an exit, and
-- ended at a time that is not the zero time, a listing shows the container
-- as succeeded if the exit code is 0 and as failed if it is not.
pub brief_status-run :
    (cs : ContainerStatus) (es : List Event) (t : ℕ) (code : ℤ)
    → cs.state ≡ created
    → AllWithin es
    → t ≢ 0
    → brief_status (run (on_start ∷ es ++ on_stopped t code ∷ []) cs)
      ≡ (if is_zero code then succeeded else failed)
unfolding brief_status run step
brief_status-run cs es t code h w nz =
    rw (run-append es (on_stopped t code ∷ []) (step on_start cs)) (ground (arith, facts))
  where
    started : Lasts (step on_start cs) false
    started = ground arith

    facts : Lasts (run es (step on_start cs)) (has_kill es)
    facts = run-Lasts es (step on_start cs) false w started
