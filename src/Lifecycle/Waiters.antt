-- ===== src/Lifecycle/Waiters.antt =====
-- daemon/pod/provision.go: the goroutines in waitPodRun, which look at a pod's status, sleep on
-- initCond while it is starting, and are woken by the Broadcast of setPodInitStatus. A goroutine
-- looks and falls asleep with the status lock held for reading, and every change of the status here
-- holds it for writing, so that the two are one event.
use hyperd.Prelude.{
  ℕ, suc, zero, ◌≡◌, ◌≢◌, refl, ap, arith, Bool, true, false, Bool-cases, inl, inr, ◌&&◌, List, [],
  ◌∷◌, ◌++◌, map, All, if◌then◌else◌, subst, sym,
}
use hyperd.Registry.{running, paused}
use hyperd.Lifecycle.{
  PodLife, Section, creates, inits, reconnects, step, create_begin, set_pod_init_status, is_running,
  reconnect_sandbox, pause_begin, pause_roll_back, unpause_begin, unpause_roll_back, stop_begin,
  cleanup_begin, cleanup_end, fail_removal, Wait, proceed, again, fail, wait_pod_run,
}
use hyperd.Lifecycle.Sections.{step-decides, init-decides}

-- A goroutine in waitPodRun: about to look at the status, asleep, or back with no error or one.
pub data Waiter : Type 0 where
  awake asleep : Waiter
  answered : Bool → Waiter

pub record WaitedPod : Type 0 where
  pub life : PodLife
  pub waiters : List Waiter

abbrev answer : Wait → Waiter
answer proceed = answered true
answer fail = answered false
answer again = asleep

-- waitPodRun, one round of its loop: initCond.Wait puts the goroutine to sleep.
abbrev pub look : PodLife → Waiter → Waiter
look p awake = answer (wait_pod_run p)
look p asleep = asleep
look p (answered b) = answered b

-- initCond.Broadcast
abbrev pub wake : Waiter → Waiter
wake asleep = awake
wake awake = awake
wake (answered b) = answered b

-- setPodInitStatus, which does nothing on a success of a pod that is running.
unfoldable pub init_status : Bool → WaitedPod → WaitedPod
unfolding is_running set_pod_init_status
init_status b q =
    if b && is_running q.life
    then q
    else record { life = set_pod_init_status b q.life; waiters = map wake q.waiters }

-- A critical section on the status, a call of waitPodRun, or a round of the n-th goroutine in it.
pub data Event : Type 0 where
  section : Section → Event
  calls : Event
  looks : ℕ → Event

abbrev look_at : PodLife → ℕ → List Waiter → List Waiter
look_at p n [] = []
look_at p zero (w ∷ ws) = look p w ∷ ws
look_at p (suc n) (w ∷ ws) = w ∷ look_at p n ws

-- A section that is not setPodInitStatus leaves the sleepers asleep.
abbrev section_on : Section → WaitedPod → WaitedPod
section_on (inits b) q = init_status b q
section_on e q = record q { life = step e q.life }

abbrev pub event : Event → WaitedPod → WaitedPod
event (section e) q = section_on e q
event calls q = record q { waiters = awake ∷ q.waiters }
event (looks n) q = record q { waiters = look_at q.life n q.waiters }

unfoldable pub events : List Event → WaitedPod → WaitedPod
events [] q = q
events (e ∷ es) q = events es (event e q)

-- Not the beginning of a creation.
abbrev pub NotCreation : Event → Type 0
NotCreation e = e ≢ section creates

-- Nor the end of one, or a reconnection.
abbrev pub DuringCreation : Event → Type 0
DuringCreation e =
    (e ≢ section creates)
    × ((b : Bool) → e ≢ section (inits b))
    × ((b : Bool) → e ≢ section (reconnects b))

-- While a sandbox is created the pod is not running, nor paused.
abbrev InCreation : PodLife → Type 0
InCreation p = (p.status ≢ running) × (p.status ≢ paused)

step-InCreation :
    (e : Section) (p : PodLife) → DuringCreation (section e) → InCreation p → InCreation (step e p)
unfolding step create_begin set_pod_init_status reconnect_sandbox pause_begin pause_roll_back
    unpause_begin unpause_roll_back stop_begin cleanup_begin cleanup_end fail_removal
step-InCreation creates p d h = absurd (d.0 refl)
step-InCreation (inits b) p d h = absurd (d.1 b refl)
step-InCreation (reconnects b) p d h = absurd (d.2 b refl)
step-InCreation e p d h = ground (arith, h)

event-InCreation :
    (e : Event) (q : WaitedPod) → DuringCreation e → InCreation q.life → InCreation (event e q).life
event-InCreation (section creates) q d h = absurd (d.0 refl)
event-InCreation (section (inits b)) q d h = absurd (d.1 b refl)
event-InCreation (section (reconnects b)) q d h = absurd (d.2 b refl)
event-InCreation (section e) q d h = step-InCreation e q.life d h
event-InCreation calls q d h = h
event-InCreation (looks n) q d h = h

events-InCreation :
    (es : List Event) (q : WaitedPod)
    → All DuringCreation es
    → InCreation q.life
    → InCreation (events es q).life
unfolding events
events-InCreation [] q d h = h
events-InCreation (e ∷ es) q d h = events-InCreation es (event e q) d.1 (event-InCreation e q d.0 h)

-- The status is not starting, and nobody sleeps.
abbrev Settled : WaitedPod → Type 0
Settled q = (wait_pod_run q.life ≢ again) × All (λ w. w ≢ asleep) q.waiters

wake-awake : (w : Waiter) → wake w ≢ asleep
wake-awake w e = ground (arith, e)

woken : (ws : List Waiter) → All (λ w. w ≢ asleep) (map wake ws)
woken [] = tt
woken (w ∷ ws) = (wake-awake w, woken ws)

init_status-Settled :
    (b : Bool) (q : WaitedPod) → (b && is_running q.life) ≡ false → Settled (init_status b q)
unfolding init_status
init_status-Settled b q h = rw h (init-decides b q.life, woken q.waiters)

look-IsAnswered :
    (p : PodLife) (w : Waiter)
    → wait_pod_run p ≢ again
    → w ≢ asleep
    → (b : Bool) × (look p w ≡ answered b)
unfolding wait_pod_run
look-IsAnswered p awake h n = of_wait (wait_pod_run p) refl
  where
    of_wait : (r : Wait) → wait_pod_run p ≡ r → (b : Bool) × (answer r ≡ answered b)
    of_wait proceed e = (true, refl)
    of_wait fail e = (false, refl)
    of_wait again e = absurd (h e)
look-IsAnswered p asleep h n = absurd (n refl)
look-IsAnswered p (answered b) h n = (b, refl)

look_at-awake :
    (p : PodLife) (n : ℕ) (ws : List Waiter)
    → wait_pod_run p ≢ again
    → All (λ w. w ≢ asleep) ws
    → All (λ w. w ≢ asleep) (look_at p n ws)
look_at-awake p n [] h a = tt
look_at-awake p zero (w ∷ ws) h a =
    let (b, e) = look-IsAnswered p w h a.0 in (rw e (λ x. ground (arith, x)), a.1)
look_at-awake p (suc n) (w ∷ ws) h a = (a.0, look_at-awake p n ws h a.1)

event-Settled : (e : Event) (q : WaitedPod) → NotCreation e → Settled q → Settled (event e q)
event-Settled (section creates) q n s = absurd (n refl)
event-Settled (section (inits b)) q n s = elim (Bool-cases (b && is_running q.life)) [
  | inl skips ↦ unfold init_status in rw skips s
  | inr goes ↦ init_status-Settled b q goes
]
event-Settled (section e) q n s =
    (step-decides e q.life (λ c. n (ap (λ (x : Section). section x) c)) s.0, s.1)
event-Settled calls q n s = (s.0, ((λ e. ground arith), s.1))
event-Settled (looks n) q c s = (s.0, look_at-awake q.life n q.waiters s.0 s.1)

events-Settled :
    (es : List Event) (q : WaitedPod) → All NotCreation es → Settled q → Settled (events es q)
unfolding events
events-Settled [] q n s = s
events-Settled (e ∷ es) q n s = events-Settled es (event e q) n.1 (event-Settled e q n.0 s)

-- The next round of each goroutine in waitPodRun is its last.
abbrev pub AllAnswered : WaitedPod → Type 0
AllAnswered q = All (λ w. (b : Bool) × (look q.life w ≡ answered b)) q.waiters

answers :
    (p : PodLife) (ws : List Waiter)
    → wait_pod_run p ≢ again
    → All (λ w. w ≢ asleep) ws
    → All (λ w. (b : Bool) × (look p w ≡ answered b)) ws
answers p [] h a = tt
answers p (w ∷ ws) h a = (look-IsAnswered p w h a.0, answers p ws h a.1)

events-append : (es fs : List Event) (q : WaitedPod) → events (es ++ fs) q ≡ events fs (events es q)
unfolding events
events-append [] fs q = refl
events-append (e ∷ es) fs q = events-append es fs (event e q)

-- The events of a creation: createSandbox, what happens until InitSandbox is back, the record of
-- its answer, and what happens later.
abbrev pub creation_events : List Event → Bool → List Event → List Event
creation_events during initialised after =
    section creates ∷ (during ++ section (inits initialised) ∷ after)

-- Every goroutine in waitPodRun is answered by its next round once the creation of a sandbox has
-- recorded how it ended, success or failure, however many of them had fallen asleep before the
-- creation or during it: the pod may have been stopped or cleaned up meanwhile, but not reconnected
-- or created again, and afterwards anything may happen but the beginning of another creation.
pub creation-answers :
    (q : WaitedPod) (during : List Event) (initialised : Bool) (after : List Event)
    → All DuringCreation during
    → All NotCreation after
    → AllAnswered (events (creation_events during initialised after) q)
unfolding events
creation-answers q during initialised after d n =
    let begun = event (section creates) q in
    let made = events during begun in
    let in_creation = events-InCreation during begun d (begun-InCreation q.life) in
    let settled =
      events-Settled after (init_status initialised made) n
        (init_status-Settled initialised made (not_running made.life in_creation)) in
    subst AllAnswered (sym (events-append during (section (inits initialised) ∷ after) begun))
      (answers _ _ settled.0 settled.1)
  where
    begun-InCreation : (p : PodLife) → InCreation (step creates p)
    begun-InCreation p =
        unfold step create_begin in (λ e. ground (arith, e), λ e. ground (arith, e))

    not_running : (p : PodLife) → InCreation p → (initialised && is_running p) ≡ false
    not_running p h = unfold is_running in ground (arith, h)
