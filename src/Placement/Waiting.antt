-- ===== src/Placement/Waiting.antt =====
-- daemon/pod/container.go: a container waits for each of its volumes once, and is given to the sandbox
-- when none of them is outstanding.
use hyperd.Prelude.{
  ℕ, ◌≤◌, ◌≡◌, ◌≢◌, String, string_eq, nat_eq, some, List, [], lookup, true, if◌then◌else◌,
}
use hyperd.Volume
use hyperd.Volume.{
  Volume, WaitGroup, done, fail, done_all, fail_all, subscribe_insert, set_inserted,
  set_insert_fail, mount, umount, try_remove_from_sandbox, begin_add, add_one,
}
use hyperd.Placement.{Answers, impossible_volume, Progress, waits, ends, Volumes, member}
use hyperd.Placement.Pending.{pending}
use hyperd.Placement.Subscribing.{subscriptions}
use hyperd.Placement.Reached.{reached}

-- The subscriptions of a new wait group to a volume: as many as needed when no volume of the spec is
-- in error, and one at most in any case.
abbrev pub Needs : ℕ → List String → Volumes → Progress → Volumes → Type 0
Needs g names vols r vols' =
    (n : String)
    → (subscriptions g (lookup n vols') ≤ 1)
      × (((x : Volume.Error) → r ≢ ends (some (impossible_volume x)))
          → subscriptions g (lookup n vols')
            ≡ (if member n names then pending (lookup n vols) else 0))

-- How far addToSandbox has come, with the group `x` and as many subscriptions outstanding.
abbrev pub Reaching : Answers → WaitGroup → ℕ → Progress → Type 0
Reaching a x outstanding r =
    (x.counter ≡ outstanding)
    × (reached r ≡ true → (outstanding ≡ 0) × (x.errs ≡ []))
    × (r ≡ waits → outstanding ≢ 0)
    × (a.prepared ≡ true
        → outstanding ≡ 0
        → x.errs ≡ []
        → ((y : Volume.Error) → r ≢ ends (some (impossible_volume y)))
        → reached r ≡ true)
