-- ===== src/Futures/Signals.antt =====
-- daemon/pod/decommission.go: the signals that stopping a container sends.
use hyperd.Prelude.{
  ℕ, ◌≡◌, ◌≢◌, ◌⊎◌, inl, refl, arith, Bool, true, false, none, List, [], ◌∷◌, nat_beq,
}
use hyperd.Futures.{
  Signal, stop_signal, kill_signal, Answers, terminate, Tick, exits, broken, tick, wait_exit,
  wait_from, stop_container,
}

-- What may be sent: the stop signal once, unless the stop is to be forced, and then the kill
-- signal once.
abbrev pub Sequence : Bool → List Signal → Type 0
Sequence force sent =
    (sent ≡ [])
    ⊎ (sent ≡ kill_signal ∷ [])
    ⊎ ((force ≡ false) × (sent ≡ stop_signal ∷ []))
    ⊎ ((force ≡ false) × (sent ≡ stop_signal ∷ kill_signal ∷ []))

-- A wait that is forced sends nothing more.
wait_exit-forced :
    (a : Answers) (ticks : List Tick) (sent : List Signal) → (wait_exit a ticks true sent).0 ≡ sent
unfolding wait_exit
wait_exit-forced a [] sent = refl
wait_exit-forced a (exits ∷ ticks) sent = refl
wait_exit-forced a (broken ∷ ticks) sent = refl
wait_exit-forced a (tick ∷ ticks) sent = refl

wait_exit-once :
    (a : Answers) (ticks : List Tick) (sent : List Signal)
    → ((wait_exit a ticks false sent).0 ≡ sent)
      ⊎ ((wait_exit a ticks false sent).0 ≡ (terminate a true sent).0)
unfolding wait_exit
wait_exit-once a [] sent = inl refl
wait_exit-once a (exits ∷ ticks) sent = inl refl
wait_exit-once a (broken ∷ ticks) sent = inl refl
wait_exit-once a (tick ∷ ticks) sent =
    ground (arith, wait_exit-forced a ticks (terminate a true sent).0)

-- Stopping a container sends at most two signals, the container's stop signal and then the kill
-- signal, and never the stop signal if the grace is zero; whatever the sandbox answers, however
-- often the timeout comes and whenever the process exits.
pub stop_container-Sequence :
    (a : Answers) (graceful : ℕ) (ticks : List Tick)
    → Sequence (nat_beq graceful 0) (stop_container a graceful ticks).0
unfolding stop_container wait_from terminate
stop_container-Sequence a graceful ticks = ground (
  arith,
  wait_exit-forced a ticks [],
  wait_exit-forced a ticks (kill_signal ∷ []),
  wait_exit-forced a ticks (stop_signal ∷ kill_signal ∷ []),
  wait_exit-once a ticks [],
  wait_exit-once a ticks (stop_signal ∷ []),
)

-- It ends at the latest when its timer has expired twice: whatever the first two events are, it
-- has returned.
pub stop_container_ends :
    (a : Answers) (graceful : ℕ) (first second : Tick) (ticks : List Tick)
    → (stop_container a graceful (first ∷ second ∷ ticks)).1 ≢ none
unfolding stop_container wait_from wait_exit terminate
stop_container_ends a graceful exits second ticks = ground arith
stop_container_ends a graceful broken second ticks = ground arith
stop_container_ends a graceful tick exits ticks = ground arith
stop_container_ends a graceful tick broken ticks = ground arith
stop_container_ends a graceful tick tick ticks = ground arith
