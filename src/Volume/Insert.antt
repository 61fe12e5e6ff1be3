-- ===== src/Volume/Insert.antt =====
-- daemon/pod/volume.go: what `add` leaves behind on each of its ways out.
use hyperd.Prelude.{
  ℕ, ◌+◌, ◌≡◌, refl, ◌⊎◌, inl, inr, Bool, true, false, Option, none, some, [], ◌∷◌, arith, ==_iff,
  nat_eq, if◌then◌else◌,
}
use hyperd.Volume.{
  created, inserted, error, Descript, Volume, Groups, mount_failed, insert_failed, add, done_all,
  fail_all, subscribe_insert,
}

-- What `add` does to a volume in the state CREATED. If the mount fails, the volume ends in ERROR
-- and the waiters get the mount's error. If the sandbox refuses it, the volume is unmounted and
-- ends in CREATED, or in ERROR if the unmount fails too, and the waiters get the insertion's
-- error. Otherwise it ends in INSERTED and the waiters are released. No waiter stays behind.
pub add-created :
    (probed : Option Descript) (added umounted : Bool) (v : Volume) (w : Groups)
    → v.status ≡ created
    → let (v', w', e) = add probed added umounted v w in
      (v'.insert_subscribers ≡ [])
      × (((probed ≡ none)
            × (e ≡ some mount_failed)
            × (v'.status ≡ error)
            × (w' ≡ fail_all mount_failed v.insert_subscribers w))
          ⊎ ((d : Descript) × (probed ≡ some d)
              × (added ≡ false)
              × (e ≡ some insert_failed)
              × (v'.status ≡ (if umounted then created else error))
              × (w' ≡ fail_all insert_failed v.insert_subscribers w))
          ⊎ ((d : Descript) × (probed ≡ some d)
              × (added ≡ true)
              × (e ≡ none)
              × (v'.status ≡ inserted)
              × (v'.descript ≡ some d)
              × (w' ≡ done_all v.insert_subscribers w)))
unfolding add
add-created none added umounted v w h =
    (ground arith, inl (refl, ground arith, ground arith, ground arith))
add-created (some d) false umounted v w h =
    (ground arith, inr (inl (d, refl, refl, ground arith, ground arith, ground arith)))
add-created (some d) true umounted v w h = (
  ground arith,
  inr (inr (d, refl, refl, ground arith, ground arith, ground arith, ground arith)),
)

-- After an insertion that the sandbox refused, once unmounted, the volume takes subscriptions
-- again as if it were still to be inserted, although its insertion has failed: the new waiter
-- is added to the list and its counter goes up, and no error is returned.
pub subscribe_insert-refused :
    (d : Descript) (v : Volume) (w : Groups) (g : ℕ)
    → v.status ≡ created
    → let (v', w', e) = add (some d) false true v w in
      let (v'', w'', e') = subscribe_insert g v' w' in
      (e ≡ some insert_failed)
      × (e' ≡ none)
      × (v''.insert_subscribers ≡ g ∷ [])
      × ((w'' g).counter ≡ (w' g).counter + 1)
unfolding add subscribe_insert
subscribe_insert-refused d v w g h =
    (ground arith, ground arith, ground arith, ground (arith, ==_iff g g))
