-- ===== src/Placement/Reached.antt =====
-- daemon/pod/container.go: how far addToSandbox comes, by the error of its subscriptions and by its wait
-- group.
use hyperd.Prelude.{
  ℕ, ◌≡◌, ◌≢◌, inl, inr, refl, arith, String, string_eq, nat_eq, Option, none, some, Option-cases,
  List, [], Bool, true, false, ◌⊎◌,
}
use hyperd.Volume
use hyperd.Volume.{
  Volume, WaitGroup, Groups, done, fail, done_all, fail_all, subscribe_insert, set_inserted,
  set_insert_fail, mount, umount, try_remove_from_sandbox, begin_add, add_one,
}
use hyperd.Volume.Notify.{Action}
use hyperd.Container.{ContainerStatus, create}
use hyperd.Placement.{
  Answers, impossible_volume, not_added, add_to_sandbox, add_prepared, Progress, waits, ends,
  is_nil, Volumes, subscribe_all, on_volumes,
}

-- What addToSandbox and the sections meanwhile leave.
abbrev pub left_by : ContainerStatus × Volumes × Groups × Progress → Volumes × Groups
left_by (cs, vols, w, r) = (vols, w)

abbrev pub progress_of : ContainerStatus × Volumes × Groups × Progress → Progress
progress_of (cs, vols, w, r) = r

-- Has the sandbox been asked to take the container?
abbrev pub reached : Progress → Bool
reached waits = false
reached (ends none) = true
reached (ends (some not_added)) = true
reached (ends (some _)) = false

pub add_prepared-reached :
    (a : Answers) (volmap : List String) (x : WaitGroup) (cs : ContainerStatus)
    → reached (add_prepared a volmap x cs).1 ≡ true
    → (is_nil volmap ≡ true) ⊎ ((x.counter ≡ 0) × (x.errs ≡ []))
unfolding add_prepared
add_prepared-reached a volmap x cs h = ground (arith, h)

pub add_prepared-asks :
    (a : Answers) (volmap : List String) (x : WaitGroup) (cs : ContainerStatus)
    → a.prepared ≡ true
    → x.counter ≡ 0
    → x.errs ≡ []
    → reached (add_prepared a volmap x cs).1 ≡ true
unfolding add_prepared
add_prepared-asks a volmap x cs p c e = ground (arith, p, c, e)

pub add_prepared-waits :
    (a : Answers) (volmap : List String) (x : WaitGroup) (cs : ContainerStatus)
    → (add_prepared a volmap x cs).1 ≡ waits
    → x.counter ≢ 0
unfolding add_prepared
add_prepared-waits a volmap x cs h c = ground (arith, h, c)

pub add_to_sandbox-left_by :
    (a : Answers) (g : ℕ) (names : List String) (meanwhile : List (String × Action))
    (cs : ContainerStatus) (vols : Volumes) (w : Groups)
    → left_by (add_to_sandbox a g names meanwhile cs vols w)
      ≡ on_volumes meanwhile
          ((subscribe_all g names [] vols w).1, (subscribe_all g names [] vols w).2)
unfolding add_to_sandbox
add_to_sandbox-left_by a g names meanwhile cs vols w =
    elim (Option-cases (subscribe_all g names [] vols w).3) [
      | inl e ↦ rw (e, add_to_sandbox) refl
      | inr (x, e) ↦ rw (e, add_to_sandbox) refl
    ]

pub on_volumes-nil : (s : Volumes × Groups) → on_volumes [] s ≡ s
unfolding on_volumes
on_volumes-nil s = refl

-- The progress, by the error of the subscriptions.
abbrev pub progress_after :
    Answers → List String → WaitGroup → ContainerStatus → Option Volume.Error → Progress
progress_after a volmap x cs none = (add_prepared a volmap x cs).1
progress_after a volmap x cs (some e) = ends (some (impossible_volume e))

pub add_to_sandbox-progress_of :
    (a : Answers) (g : ℕ) (names : List String) (meanwhile : List (String × Action))
    (cs : ContainerStatus) (vols : Volumes) (w : Groups)
    → progress_of (add_to_sandbox a g names meanwhile cs vols w)
      ≡ progress_after a
          (subscribe_all g names [] vols w).0
          ((left_by (add_to_sandbox a g names meanwhile cs vols w)).1 g)
          (create cs).0
          (subscribe_all g names [] vols w).3
unfolding add_to_sandbox
add_to_sandbox-progress_of a g names meanwhile cs vols w =
    elim (Option-cases (subscribe_all g names [] vols w).3) [
      | inl e ↦ rw (e, add_to_sandbox) refl
      | inr (x, e) ↦ rw (e, add_to_sandbox) refl
    ]
