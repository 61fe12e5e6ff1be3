-- ===== src/Futures/Waiting.antt =====
-- utils/sync.go: what Wait returns.
use hyperd.Prelude.{
  ◌≡◌, ◌≢◌, ◌⊎◌, inl, inr, refl, arith, Bool, true, false, Bool-cases, Option, none, some, List, [],
  ◌∷◌, ◌++◌, ◌==◌, ==_iff, All, if◌then◌else◌,
}
use hyperd.Prelude.Text.{Text, text_eq}
use hyperd.Futures.{
  Error, Event, result, expires, Waited, succeeds, fails, finish, remove, record_error, waits,
  wait_loop, wait,
}

-- Is the operation's result among the events, without an error?
abbrev pub succeeded : Text → List Event → Bool
succeeded id [] = false
succeeded id (result i none ∷ events) = if i == id then true else succeeded id events
succeeded id (result i (some e) ∷ events) = succeeded id events
succeeded id (expires ∷ events) = false

-- Does an error, or the timeout, come?
abbrev pub has_error : List Event → Bool
has_error [] = false
has_error (result i none ∷ events) = has_error events
has_error (result i (some e) ∷ events) = true
has_error (expires ∷ events) = true

-- Is the operation's result among the events before the timeout?
abbrev pub answered : List Event → Text → Bool
answered [] id = false
answered (result i e ∷ events) id = if i == id then true else answered events id
answered (expires ∷ events) id = false

finish-errs : (errs : List (Text × Error)) → finish errs ≡ succeeds → errs ≡ []
finish-errs [] h = refl
finish-errs (e ∷ errs) h = absurd (ground arith)

record_error-nil :
    (id : Text) (e : Option Error) (errs : List (Text × Error))
    → record_error id e errs ≡ []
    → (e ≡ none) × (errs ≡ [])
record_error-nil id none errs h = (refl, h)
record_error-nil id (some e) [] h = absurd (ground arith)
record_error-nil id (some e) (x ∷ errs) h = absurd (ground arith)

-- A success has no error recorded before.
wait_loop-errs :
    (events : List Event) (ids : List Text) (errs : List (Text × Error))
    → wait_loop events ids errs ≡ succeeds
    → errs ≡ []
unfolding wait_loop
wait_loop-errs events [] errs h = finish-errs errs h
wait_loop-errs [] (i ∷ ids) errs h = absurd (ground arith)
wait_loop-errs (expires ∷ events) (i ∷ ids) errs h = absurd (ground arith)
wait_loop-errs (result id e ∷ events) (i ∷ ids) errs h =
    (record_error-nil id e errs
      (wait_loop-errs events (remove id (i ∷ ids)) (record_error id e errs) h)).1

waits-remove :
    (id j : Text) (ids : List Text)
    → waits j ids ≡ true
    → (id == j) ≡ false
    → waits j (remove id ids) ≡ true
waits-remove id j [] h n = absurd (ground arith)
waits-remove id j (i ∷ ids) h n =
    ground (arith, waits-remove id j ids, ==_iff i j, ==_iff i id, ==_iff id j)

wait_loop-succeeded :
    (events : List Event) (ids : List Text) (errs : List (Text × Error)) (j : Text)
    → wait_loop events ids errs ≡ succeeds
    → waits j ids ≡ true
    → succeeded j events ≡ true
unfolding wait_loop
wait_loop-succeeded events [] errs j h w = absurd (ground arith)
wait_loop-succeeded [] (i ∷ ids) errs j h w = absurd (ground arith)
wait_loop-succeeded (expires ∷ events) (i ∷ ids) errs j h w = absurd (ground arith)
wait_loop-succeeded (result id none ∷ events) (i ∷ ids) errs j h w = elim (Bool-cases (id == j)) [
  | inl e ↦ rw e refl
  | inr e ↦
      rw e (
        wait_loop-succeeded events (remove id (i ∷ ids)) errs j h (waits-remove id j (i ∷ ids) w e))
]
wait_loop-succeeded (result id (some x) ∷ events) (i ∷ ids) errs j h w =
    absurd (impossible errs (wait_loop-errs events (remove id (i ∷ ids)) _ h))
  where
    impossible : (l : List (Text × Error)) → l ++ (id, x) ∷ [] ≢ []
    impossible [] e = ground arith
    impossible (y ∷ l) e = ground arith

-- When Wait returns no error, every operation that it waited for has returned, without an error.
pub wait-succeeded :
    (events : List Event) (ids : List Text) (id : Text)
    → wait events ids ≡ succeeds
    → waits id ids ≡ true
    → succeeded id events ≡ true
unfolding wait
wait-succeeded events ids id h w = wait_loop-succeeded events ids [] id h w

Returned : Waited → Type 0
Returned w = (w ≡ succeeds) ⊎ ((errs : List (Text × Error)) × (w ≡ fails errs))

finish-Returned : (errs : List (Text × Error)) → Returned (finish errs)
unfolding Returned
finish-Returned [] = inl refl
finish-Returned (e ∷ errs) = inr (e ∷ errs, refl)

All-answered :
    (id : Text) (e : Option Error) (events : List Event) (ids : List Text)
    → All (λ j. answered (result id e ∷ events) j ≡ true) ids
    → All (λ j. answered events j ≡ true) (remove id ids)
All-answered id e events [] h = tt
All-answered id e events (i ∷ ids) h = elim (Bool-cases (i == id)) [
  | inl x ↦ rw x (All-answered id e events ids h.1)
  | inr x ↦ rw x (ground (arith, h.0, ==_iff i id, ==_iff id i), All-answered id e events ids h.1)
]

wait_loop-Returned :
    (events : List Event) (ids : List Text) (errs : List (Text × Error))
    → All (λ j. answered events j ≡ true) ids
    → Returned (wait_loop events ids errs)
unfolding wait_loop
wait_loop-Returned events [] errs h = finish-Returned errs
wait_loop-Returned [] (i ∷ ids) errs h = absurd (ground (arith, h.0))
wait_loop-Returned (expires ∷ events) (i ∷ ids) errs h = absurd (ground (arith, h.0))
wait_loop-Returned (result id e ∷ events) (i ∷ ids) errs h =
    wait_loop-Returned events (remove id (i ∷ ids)) (record_error id e errs)
      (All-answered id e events (i ∷ ids) h)

-- If the result of every operation comes before the timeout, in any order and with or without
-- errors, Wait returns, and not because of the timeout.
pub wait_returns :
    (events : List Event) (ids : List Text)
    → All (λ id. answered events id ≡ true) ids
    → (wait events ids ≡ succeeds) ⊎ ((errs : List (Text × Error)) × (wait events ids ≡ fails errs))
unfolding wait Returned
wait_returns events ids h = wait_loop-Returned events ids [] h
