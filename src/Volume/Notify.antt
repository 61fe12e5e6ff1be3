-- ===== src/Volume/Notify.antt =====
-- daemon/pod/volume.go: the waiters for a volume, over all interleavings of the critical sections
-- of the goroutines that share it.
use hyperd.Prelude.{
  ℕ, ◌+◌, ◌-◌, ◌≡◌, refl, Bool, Option, none, some, List, [], ◌∷◌, ◌++◌, arith, ◌==◌, nat_eq,
  if◌then◌else◌,
}
use hyperd.Volume.{
  inserted, Error, Descript, Volume, Groups, add_one, done, fail, done_all, fail_all, begin_add,
  set_inserted, set_insert_fail, mount, umount, subscribe_insert, Removal, try_remove_from_sandbox,
}

-- The critical sections on a volume.
pub data Action : Type 0 where
  on_subscribe : ℕ → Action
  on_begin on_inserted : Action
  on_mount : Option Descript → Action
  on_fail : Error → Action
  on_umount : Bool → Action
  on_remove : Removal → Action

unfoldable pub perform : Action → Volume × Groups → Volume × Groups
unfolding subscribe_insert set_inserted set_insert_fail mount umount try_remove_from_sandbox
    begin_add
perform (on_subscribe g) (v, w) = let (v', w', e) = subscribe_insert g v w in (v', w')
perform on_begin (v, w) = ((begin_add v).0, w)
perform on_inserted (v, w) = set_inserted v w
perform (on_mount probed) (v, w) = ((mount probed v).0, w)
perform (on_fail e) (v, w) = set_insert_fail e v w
perform (on_umount umounted) (v, w) = ((umount umounted v).0, w)
perform (on_remove r) (v, w) = ((try_remove_from_sandbox r v).0, w)

unfoldable pub run : List Action → Volume × Groups → Volume × Groups
unfolding perform
run [] s = s
run (a ∷ as') s = run as' (perform a s)

-- How often a wait group waits for the volume.
abbrev pub count : ℕ → List ℕ → ℕ
count g [] = 0
count g (x ∷ xs) = if x == g then count g xs + 1 else count g xs

pub count-append : (g x : ℕ) (xs : List ℕ) → count g (xs ++ x ∷ []) ≡ count g xs + count g (x ∷ [])
count-append g x [] = ground arith
count-append g x (y ∷ ys) = ground (arith, count-append g x ys)

done_all-counter :
    (g : ℕ) (gs : List ℕ) (w : Groups) → (done_all gs w g).counter ≡ (w g).counter - count g gs
unfolding done_all done
done_all-counter g [] w = omega arith
done_all-counter g (x ∷ gs) w = ground (arith, done_all-counter g gs (done x w))

fail_all-counter :
    (e : Error) (g : ℕ) (gs : List ℕ) (w : Groups)
    → (fail_all e gs w g).counter ≡ (w g).counter - count g gs
unfolding fail_all fail
fail_all-counter e g [] w = omega arith
fail_all-counter e g (x ∷ gs) w = ground (arith, fail_all-counter e g gs (fail e x w))

-- The group `g` waits for the volume as often as it stands in the list of subscribers, and `b`
-- times for others.
abbrev pub Balanced : ℕ → ℕ → Volume × Groups → Type 0
Balanced g b (v, w) = (w g).counter ≡ b + count g v.insert_subscribers

pub perform-Balanced :
    (a : Action) (g b : ℕ) (v : Volume) (w : Groups)
    → Balanced g b (v, w)
    → Balanced g b (perform a (v, w))
unfolding perform add_one
perform-Balanced (on_subscribe x) g b v w h = ground (arith, count-append g x v.insert_subscribers)
perform-Balanced on_begin g b v w h = ground arith
perform-Balanced on_inserted g b v w h = ground (arith, done_all-counter g v.insert_subscribers w)
perform-Balanced (on_mount probed) g b v w h = ground arith
perform-Balanced (on_fail e) g b v w h = ground (arith, fail_all-counter e g v.insert_subscribers w)
perform-Balanced (on_umount umounted) g b v w h = ground arith
perform-Balanced (on_remove r) g b v w h = ground arith

-- Over every interleaving of subscriptions, insertions, failures, unmounts and removals, a wait
-- group's counter is the number of its pending subscriptions to the volume above what it was
-- for others at the start, if it was so before.
pub run-Balanced :
    (as' : List Action) (g b : ℕ) (v : Volume) (w : Groups)
    → Balanced g b (v, w)
    → Balanced g b (run as' (v, w))
unfolding run
run-Balanced [] g b v w h = h
run-Balanced (a ∷ as') g b v w h =
    let s = perform a (v, w) in run-Balanced as' g b s.0 s.1 (perform-Balanced a g b v w h)

-- An inserted volume keeps nobody waiting.
abbrev pub IsQuiet : Volume → Type 0
IsQuiet v = v.status ≡ inserted → v.insert_subscribers ≡ []

perform-IsQuiet : (a : Action) (v : Volume) (w : Groups) → IsQuiet v → IsQuiet (perform a (v, w)).0
unfolding perform
perform-IsQuiet (on_subscribe x) v w h = λ e. ground (arith, h)
perform-IsQuiet on_begin v w h = λ e. ground (arith, h)
perform-IsQuiet on_inserted v w h = λ e. refl
perform-IsQuiet (on_mount none) v w h = h
perform-IsQuiet (on_mount (some d)) v w h = h
perform-IsQuiet (on_fail x) v w h = λ e. refl
perform-IsQuiet (on_umount umounted) v w h = λ e. ground arith
perform-IsQuiet (on_remove r) v w h = λ e. ground (arith, h)

-- Over every interleaving of subscriptions, insertions, failures, unmounts and removals, if no
-- container waits on the volume when it is inserted, none does later when it is.
pub run-IsQuiet :
    (as' : List Action) (v : Volume) (w : Groups) → IsQuiet v → IsQuiet (run as' (v, w)).0
unfolding run
run-IsQuiet [] v w h = h
run-IsQuiet (a ∷ as') v w h =
    let s = perform a (v, w) in run-IsQuiet as' s.0 s.1 (perform-IsQuiet a v w h)
