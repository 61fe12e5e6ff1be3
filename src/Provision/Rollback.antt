-- ===== src/Provision/Rollback.antt =====
-- daemon/pod/provision.go: what CreateXPod leaves in the registry.
use hyperd.Prelude.{
  ℕ, String, ◌≡◌, ◌≢◌, refl, ap, arith, ◌⊎◌, inl, inr, Bool, true, false, Bool-cases, Option, none,
  some, Option-cases, List, All, lookup, string_eq, nat_eq, if◌then◌else◌,
}
use hyperd.Registry.{
  PodList, Heap, Error, ContainerSpec, reserve_names, release_names, release_each,
}
use hyperd.Registry.Isolation.{Reserved}
use hyperd.Registry.Freeing.{Gone, release_each-Gone, release-Gone, release-pods}
use hyperd.Registry.Atomic.{reserve_names_atomic}
use hyperd.Provision.{
  Answers, Created, Fault, names, unmade, failed, SandboxStart, no_sandbox, uninitialised,
  initialised, roll_back, with_sandbox, all_done, finish, reserved, create_x_pod,
}

-- The containers have been given up: none of the names and of the non-empty ids is reserved, and
-- the pod is not registered.
abbrev pub GivenUp : String → List ContainerSpec → PodList → Type 0
GivenUp pod cs pl = All (Gone pl) cs × (lookup pod pl.pods ≡ none)

release_names-GivenUp :
    (h : Heap) (p : ℕ) (cs : List ContainerSpec) (pl : PodList)
    → GivenUp (h p).id cs (release_names h p cs pl)
unfolding release_names
release_names-GivenUp h p cs pl = (
  release-Gone h (h p).id cs (release_each cs pl) (release_each-Gone cs pl),
  release-pods h (h p).id (release_each cs pl),
)

-- How a creation ends, from the reservation on.
abbrev pub Ended : Heap → ℕ → List ContainerSpec → Answers → Created → Type 0
Ended h p cs a r =
    ((r.fault ≡ none)
      × (r.killed ≡ false)
      × (a.saved ≡ true)
      × All (Reserved (a.heap p).id r.registry) a.specs)
    ⊎ ((r.fault ≢ none)
        × (r.killed ≡ a.sandbox_left)
        × (a.sandbox ≡ initialised)
        × GivenUp (a.heap p).id a.specs r.registry)
    ⊎ ((r.fault ≢ none)
        × (r.killed ≡ false)
        × (a.sandbox ≢ initialised)
        × GivenUp (h p).id cs r.registry)

some_fault : (f : Fault) → ◌≢◌ {A = Option Fault} (some f) none
some_fault f e = ground (arith, e)

roll_back-Ended :
    (h : Heap) (p : ℕ) (cs : List ContainerSpec) (a : Answers) (f : Fault) (pl : PodList)
    → a.sandbox ≡ initialised
    → Ended h p cs a (roll_back a p f pl)
roll_back-Ended h p cs a f pl s =
    inr (inl (some_fault f, refl, s, release_names-GivenUp a.heap p a.specs pl))

reserve_names-Reserved :
    (h : Heap) (p : ℕ) (cs : List ContainerSpec) (pl : PodList)
    → (reserve_names h p cs pl).1 ≡ none
    → All (Reserved (h p).id (reserve_names h p cs pl).0) cs
reserve_names-Reserved h p cs pl e = elim (reserve_names_atomic h p cs pl) [
  | inl r ↦ absurd (ground (arith, e, ap (λ x. x.1) r))
  | inr (inl d) ↦ d.1
  | inr (inr f) ↦ absurd (ground (arith, e, f.4))
]

finish-Ended :
    (h : Heap) (p : ℕ) (cs : List ContainerSpec) (a : Answers) (r : PodList × Option Error)
    → a.sandbox ≡ initialised
    → (r.1 ≡ none → All (Reserved (a.heap p).id r.0) a.specs)
    → Ended h p cs a (finish a p r)
finish-Ended h p cs a (pl, some e) s all = roll_back-Ended h p cs a (names e) pl s
finish-Ended h p cs a (pl, none) s all = of_saved a.saved refl
  where
    of_saved :
        (b : Bool)
        → a.saved ≡ b
        → Ended h p cs a (
            if b
            then record { registry = pl; killed = false; fault = none }
            else roll_back a p failed pl)
    of_saved true e = inl (refl, refl, e, all refl)
    of_saved false e = roll_back-Ended h p cs a failed pl s

with_sandbox-Ended :
    (h : Heap) (p : ℕ) (cs : List ContainerSpec) (a : Answers) (pl : PodList)
    → a.sandbox ≡ initialised
    → Ended h p cs a (with_sandbox a p pl)
with_sandbox-Ended h p cs a pl s = of_done (all_done a) refl
  where
    of_done :
        (b : Bool)
        → all_done a ≡ b
        → Ended h p cs a
            (if b then finish a p (reserve_names a.heap p a.specs pl) else roll_back a p failed pl)
    of_done true e =
        finish-Ended h p cs a (reserve_names a.heap p a.specs pl) s
          (reserve_names-Reserved a.heap p a.specs pl)
    of_done false e = roll_back-Ended h p cs a failed pl s

not_initialised :
    (a : Answers) → (a.sandbox ≡ no_sandbox) ⊎ (a.sandbox ≡ uninitialised) → a.sandbox ≢ initialised
not_initialised a (inl s) e = ground (arith, s, e)
not_initialised a (inr s) e = ground (arith, s, e)

given_up :
    (h : Heap) (p : ℕ) (cs : List ContainerSpec) (a : Answers) (pl : PodList)
    → a.sandbox ≢ initialised
    → Ended h p cs a
        (record { registry = release_names h p cs pl; killed = false; fault = some failed })
given_up h p cs a pl s = inr (inr (some_fault failed, refl, s, release_names-GivenUp h p cs pl))

reserved-Ended :
    (h : Heap) (p : ℕ) (cs : List ContainerSpec) (a : Answers) (pl : PodList) (s : SandboxStart)
    → a.sandbox ≡ s
    → Ended h p cs a (reserved s h p cs a pl)
reserved-Ended h p cs a pl initialised e = with_sandbox-Ended h p cs a pl e
reserved-Ended h p cs a pl no_sandbox e = given_up h p cs a pl (not_initialised a (inl e))
reserved-Ended h p cs a pl uninitialised e = given_up h p cs a pl (not_initialised a (inr e))

-- How a creation ends as a whole: without a usable spec, without the names, or after the
-- reservation.
abbrev pub Outcome : Heap → ℕ → List ContainerSpec → Answers → PodList → Created → Type 0
Outcome h p cs a pl r =
    ((a.made ≡ false) × (r ≡ record { registry = pl; killed = false; fault = some unmade }))
    ⊎ ((e : Error) × ((reserve_names h p cs pl).1 ≡ some e)
        × (r ≡ record {
          registry = (reserve_names h p cs pl).0;
          killed = false;
          fault = some (names e);
        }))
    ⊎ Ended h p cs a r

-- How CreateXPod ends. With a spec that cannot be used, the registry is as before. With names that
-- cannot be reserved, it is as reserveNames leaves it. Otherwise the pod is saved, and the name and
-- the non-empty id of each container are reserved to it; or there is an error, and then no
-- container of the spec has a name or a non-empty id reserved, the pod is not registered, and the
-- sandbox has been killed exactly if it had been initialised and the pod still has it: cleanup may
-- have taken it away meanwhile.
pub create_x_pod-Outcome :
    (h : Heap) (p : ℕ) (cs : List ContainerSpec) (a : Answers) (pl : PodList)
    → Outcome h p cs a pl (create_x_pod h p cs a pl)
create_x_pod-Outcome h p cs a pl = elim (Bool-cases a.made) [
  | inr unusable ↦ inl (unusable, unfold create_x_pod in rw unusable refl)
  | inl usable ↦ elim (Option-cases (reserve_names h p cs pl).1) [
    | inr (e, q) ↦ inr (inl (e, q, unfold create_x_pod in rw usable (rw q refl)))
    | inl q ↦ inr (
        inr (
          unfold create_x_pod in
          rw usable (rw q (reserved-Ended h p cs a (reserve_names h p cs pl).0 a.sandbox refl))))
  ]
]
