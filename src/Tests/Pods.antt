-- ===== src/Tests/Pods.antt =====
-- daemon/pod/podlist.go, provision.go, container.go, decommission.go on concrete pods.
use hyperd.Prelude.{
  zero, suc, ◌+◌, ◌≤◌, ◌≡◌, ◌≢◌, ◌⊎◌, refl, arith, String, Bool, true, false, none, some, List, [],
  ◌∷◌, ◌++◌, All, lookup, insert, delete, ◌==◌, ==_iff, string_eq,
}
use hyperd.Registry.{
  PodState, running, Heap, PodList, Error, ContainerSpec, pod_in_use, reserve_names,
  reserve_container_name, release_container_name,
}
use hyperd.Registry.Isolation.{Keeps, Reserved}
use hyperd.Registry.Keeping.{Apart}
use hyperd.Registry.Freeing.{Gone}
use hyperd.Registry.Atomic.{reserve_names_atomic, reserve_names-Keeps}
use hyperd.Registry.Rename.{Named, rename, strip_slash, rename_moves, is_restricted_name}
use hyperd.Lifecycle
use hyperd.Lifecycle.{
  PodLife, Section, creates, pauses, stops, cleans_up, ends_cleanup, pause, unpause, remove,
  cleanup, do_stop_pod, wait_pod_run, set_pod_init_status, again,
}
use hyperd.Lifecycle.Sections.{stops_of, in_use, creations, stops-creations}
use hyperd.Lifecycle.Waiters.{
  WaitedPod, asleep, section, calls, looks, events, AllAnswered, creation_events, creation-answers,
}

-- Pod 0 is being created; pod 1 is running with one container.
abbrev heap : Heap
heap zero = record { id = "web"; status = PodState.s_none; containers = [] }
heap (suc n) = record { id = "db"; status = running; containers = ("d1", "mysql") ∷ [] }

abbrev registry : PodList
registry = record {
  pods = ("db", 1) ∷ [];
  containers = ("d1", "db") ∷ [];
  container_names = ("mysql", "db") ∷ [];
}

abbrev specs : List ContainerSpec
specs = record { id = ""; name = "nginx" } ∷ record { id = ""; name = "mysql" } ∷ []

reserve_names_atomic_example :
    (reserve_names heap 0 specs registry ≡ (registry, some pod_in_use))
    ⊎ (((reserve_names heap 0 specs registry).1 ≡ none)
        × All (Reserved "web" (reserve_names heap 0 specs registry).0) specs)
    ⊎ ((e : Error) × (pre : List ContainerSpec) × (c : ContainerSpec) × (post : List ContainerSpec)
        × ((reserve_names heap 0 specs registry).1 ≡ some e)
        × (specs ≡ pre ++ c ∷ post)
        × All (Gone (reserve_names heap 0 specs registry).0) pre
        × (lookup "web" (reserve_names heap 0 specs registry).0.pods ≡ none))
reserve_names_atomic_example = reserve_names_atomic heap 0 specs registry

web-Apart : Apart (heap 0) "db" registry
web-Apart = record { names = λ k h. refl; ids = λ k h. refl }

differ : (a b : String) → (a == b) ≡ false → a ≢ b
differ a b h e = ground (arith, ==_iff a b)

reserve_names-Keeps_example : Keeps "db" registry (reserve_names heap 0 specs registry).0
reserve_names-Keeps_example =
    reserve_names-Keeps heap 0 specs "db" registry (differ "db" "web" refl) web-Apart

abbrev refuse : String → String → Bool
refuse old new = false

abbrev accept : String → String → Bool
accept old new = true

abbrev mysql : Named
mysql = record { id = "d1"; name = "mysql"; descript = none }

abbrev siblings : PodList
siblings = record registry { container_names = ("mysql", "db") ∷ ("backup", "db") ∷ [] }

rename_moves_example :
    ((rename accept "db" mysql "maria" registry).0.name ≡ "maria")
    × (lookup "mysql" (rename accept "db" mysql "maria" registry).1.container_names ≡ none)
unfolding rename strip_slash is_restricted_name reserve_container_name release_container_name lookup
    insert delete
rename_moves_example =
    rename_moves accept "db" mysql "maria" "maria" registry "mysql" refl
      (differ "maria" "mysql" refl) refl

abbrev idle : PodLife
idle = record { status = PodState.s_none; sandbox = false }

abbrev live : PodLife
live = record { status = running; sandbox = true }

-- A sandbox that is created and stopped, by two goroutines at once, and cleaned up.
abbrev stopped_twice : List Section
stopped_twice = creates ∷ stops ∷ stops ∷ cleans_up ∷ ends_cleanup ∷ []

stops-creations_example :
    stops_of stopped_twice idle + in_use (Lifecycle.run stopped_twice idle).status
    ≤ creations stopped_twice + in_use idle.status
stops-creations_example = stops-creations stopped_twice idle

-- Two goroutines sleep when the creation begins, a third comes, and the pod is stopped meanwhile.
abbrev watched : WaitedPod
watched = record { life = live; waiters = asleep ∷ asleep ∷ [] }

creation-answers_example : AllAnswered (
    events
      (creation_events (calls ∷ looks 0 ∷ section stops ∷ []) true (section cleans_up ∷ []))
      watched)
creation-answers_example =
    creation-answers watched (calls ∷ looks 0 ∷ section stops ∷ []) true (section cleans_up ∷ [])
      (
        ((λ e. ground (arith, e)), (λ b e. ground (arith, e)), (λ b e. ground (arith, e))),
        (
          ((λ e. ground (arith, e)), (λ b e. ground (arith, e)), (λ b e. ground (arith, e))),
          (((λ e. ground (arith, e)), (λ b e. ground (arith, e)), (λ b e. ground (arith, e))), tt),
        ),
      )
      ((λ e. ground (arith, e)), tt)
