-- ===== src/Placement/Counting.antt =====
-- daemon/pod/volume.go: the subscriptions of a wait group over the critical sections on the volumes
-- of a pod.
use hyperd.Prelude.{
  ℕ, ◌-◌, ◌≤◌, ◌≡◌, ◌≢◌, inl, inr, refl, sym, subst, arith, String, Bool-cases, ◌==◌, string_eq,
  nat_eq, none, some, Option-cases, List, [], ◌∷◌, lookup, insert, All, ap, ==_iff, ◌∙◌, false,
}
use hyperd.Volume
use hyperd.Volume.{
  Volume, WaitGroup, Groups, done, fail, done_all, fail_all, subscribe_insert, set_inserted,
  set_insert_fail, mount, umount, try_remove_from_sandbox, begin_add, add_one,
}
use hyperd.Volume.Notify.{
  Action, on_subscribe, on_begin, on_inserted, on_mount, on_fail, on_umount, on_remove, perform,
  count, count-append, perform-Balanced,
}
use hyperd.Placement.{Volumes, on_volume, on_volumes}
use hyperd.Placement.Subscribing.{total, total-insert}

pub total-le :
    (g : ℕ) (n : String) (v : Volume) (m : Volumes)
    → lookup n m ≡ some v
    → count g v.insert_subscribers ≤ total g m
unfolding lookup
total-le g n v [] h = absurd (ground arith)
total-le g n v ((k, u) ∷ m) h = elim (Bool-cases (k == n)) [
  | inl e ↦ ground (arith, e, h)
  | inr e ↦ ground (arith, e, h, total-le g n v m)
]

on_volume-missing :
    (n : String) (a : Action) (vols : Volumes) (w : Groups)
    → lookup n vols ≡ none
    → on_volume n a (vols, w) ≡ (vols, w)
unfolding on_volume
on_volume-missing n a vols w e = rw (e, on_volume) refl

on_volume-found :
    (n : String) (a : Action) (v : Volume) (vols : Volumes) (w : Groups)
    → lookup n vols ≡ some v
    → on_volume n a (vols, w) ≡ (insert n (perform a (v, w)).0 vols, (perform a (v, w)).1)
unfolding on_volume
on_volume-found n a v vols w e = rw (e, on_volume) refl

-- The group waits as often as it is subscribed.
abbrev pub IsCounted : ℕ → Volumes × Groups → Type 0
IsCounted g (vols, w) = (w g).counter ≡ total g vols

on_volume-IsCounted :
    (g : ℕ) (n : String) (a : Action) (vols : Volumes) (w : Groups)
    → IsCounted g (vols, w)
    → IsCounted g (on_volume n a (vols, w))
on_volume-IsCounted g n a vols w h = elim (Option-cases (lookup n vols)) [
  | inl e ↦ subst (IsCounted g) (sym (on_volume-missing n a vols w e)) h
  | inr (v, e) ↦
      let others = total g vols - count g v.insert_subscribers in
      subst (IsCounted g) (sym (on_volume-found n a v vols w e)) (
        omega (
          arith,
          h,
          total-le g n v vols e,
          total-insert g n v (perform a (v, w)).0 vols e,
          perform-Balanced a g others v w (omega (arith, h, total-le g n v vols e)),
        ))
]

pub on_volumes-IsCounted :
    (g : ℕ) (as' : List (String × Action)) (s : Volumes × Groups)
    → IsCounted g s
    → IsCounted g (on_volumes as' s)
unfolding on_volumes
on_volumes-IsCounted g [] s h = h
on_volumes-IsCounted g ((n, a) ∷ as') (vols, w) h =
    on_volumes-IsCounted g as' (on_volume n a (vols, w)) (on_volume-IsCounted g n a vols w h)

-- A critical section of another container, or of a volume.
abbrev pub IsOther : ℕ → String × Action → Type 0
IsOther g (n, a) = a ≢ on_subscribe g

done_all-other : (g : ℕ) (gs : List ℕ) (w : Groups) → count g gs ≡ 0 → done_all gs w g ≡ w g
unfolding done_all done
done_all-other g [] w h = refl
done_all-other g (x ∷ gs) w h = ground (arith, h, done_all-other g gs (done x w))

fail_all-other :
    (e : Volume.Error) (g : ℕ) (gs : List ℕ) (w : Groups) → count g gs ≡ 0 → fail_all e gs w g ≡ w g
unfolding fail_all fail
fail_all-other e g [] w h = refl
fail_all-other e g (x ∷ gs) w h = ground (arith, h, fail_all-other e g gs (fail e x w))

-- The group is in no list of subscribers, and is as it was.
abbrev pub Untouched : ℕ → WaitGroup → Volumes × Groups → Type 0
Untouched g x (vols, w) = (total g vols ≡ 0) × (w g ≡ x)

subscribe_insert-other :
    (g x : ℕ) (v : Volume) (w : Groups)
    → (x == g) ≡ false
    → count g v.insert_subscribers ≡ 0
    → (count g (subscribe_insert x v w).0.insert_subscribers ≡ 0)
      × ((subscribe_insert x v w).1 g ≡ w g)
unfolding subscribe_insert add_one
subscribe_insert-other g x v w o h = ground (arith, o, h, count-append g x v.insert_subscribers)

perform-other :
    (g : ℕ) (n : String) (a : Action) (v : Volume) (w : Groups)
    → IsOther g (n, a)
    → count g v.insert_subscribers ≡ 0
    → (count g (perform a (v, w)).0.insert_subscribers ≡ 0) × ((perform a (v, w)).1 g ≡ w g)
unfolding perform
perform-other g n (on_subscribe x) v w o h = elim (Bool-cases (x == g)) [
  | inl e ↦ absurd (o (ap (λ (y : ℕ). on_subscribe y) ((==_iff x g).0 e)))
  | inr e ↦ subscribe_insert-other g x v w e h
]
perform-other g n on_begin v w o h = (ground (arith, h), refl)
perform-other g n on_inserted v w o h = (refl, done_all-other g v.insert_subscribers w h)
perform-other g n (on_mount probed) v w o h = (ground (arith, h), refl)
perform-other g n (on_fail e) v w o h = (refl, fail_all-other e g v.insert_subscribers w h)
perform-other g n (on_umount umounted) v w o h = (ground (arith, h), refl)
perform-other g n (on_remove r) v w o h = (ground (arith, h), refl)

on_volume-Untouched :
    (g : ℕ) (x : WaitGroup) (n : String) (a : Action) (vols : Volumes) (w : Groups)
    → IsOther g (n, a)
    → Untouched g x (vols, w)
    → Untouched g x (on_volume n a (vols, w))
on_volume-Untouched g x n a vols w o h = elim (Option-cases (lookup n vols)) [
  | inl e ↦ subst (Untouched g x) (sym (on_volume-missing n a vols w e)) h
  | inr (v, e) ↦
      let none_here : count g v.insert_subscribers ≡ 0 =
        omega (arith, h.0, total-le g n v vols e) in
      let left = perform-other g n a v w o none_here in
      subst (Untouched g x) (sym (on_volume-found n a v vols w e))
        (omega (arith, h.0, left.0, total-insert g n v (perform a (v, w)).0 vols e), left.1 ∙ h.1)
]

pub on_volumes-Untouched :
    (g : ℕ) (x : WaitGroup) (as' : List (String × Action)) (s : Volumes × Groups)
    → All (IsOther g) as'
    → Untouched g x s
    → Untouched g x (on_volumes as' s)
unfolding on_volumes
on_volumes-Untouched g x [] s o h = h
on_volumes-Untouched g x ((n, a) ∷ as') (vols, w) o h =
    on_volumes-Untouched g x as' (on_volume n a (vols, w)) o.1
      (on_volume-Untouched g x n a vols w o.0 h)
