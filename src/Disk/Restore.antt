-- ===== src/Disk/Restore.antt =====
-- daemon/storage.go: a volume that has been created is found again under the number of its device.
use hyperd.Prelude.{
  ℕ, ◌+◌, ◌%◌, ◌<◌, ◌≤◌, ◌≡◌, ◌≢◌, refl, sym, ap, ◌∙◌, subst, arith, true, false, Option, none,
  some, List, [], ◌∷◌, ◌++◌, lookup, lt→ltb,
}
use hyperd.Prelude.Text.{Text, text_eq}
use hyperd.Prelude.Int.{ℤ, pos}
use hyperd.Store.{Store, key_volume, prefix_volume, has_prefix, list_pod_volumes, update_pod_volume}
use hyperd.Store.Kinds.{has_colon}
use hyperd.Disk.{
  Leveldb, device_name, record_of, id_loop, get_persisted_id, Answer, created, file_exists, failed,
  create_loop, restores, rand_dev_id, Volume, Outcome, made, create_volume, finish, after_loop,
  going_on, refused, panicked,
}
use hyperd.Disk.Records.{
  NoneOf, id_loop-NoneOf, id_loop-append, id_loop-record_of, update-absent, list_pod_volumes-append,
}

-- A device has a number from 1 to 2 ^ 24 - 1.
create_loop-id :
    (rounds : List (ℕ × Answer)) (dev_id id : ℤ)
    → create_loop false dev_id rounds ≡ some (some id)
    → (n : ℕ) × (id ≡ pos n) × (1 ≤ n) × (n < 16777216)
unfolding create_loop
create_loop-id [] dev_id id h = absurd (ground (arith, h))
create_loop-id ((draw, created) ∷ rounds) dev_id id h =
    (draw % 16777215 + 1, ground (arith, h), omega arith, omega arith)
create_loop-id ((draw, file_exists) ∷ rounds) dev_id id h =
    create_loop-id rounds (rand_dev_id draw) id h
create_loop-id ((draw, failed) ∷ rounds) dev_id id h = absurd (ground (arith, h))

-- What CreateVolume does, by the number that is found and by what the loop gives.
create_volume-step :
    (hex_sum : Text → Text) (disk : Leveldb) (pod : Text) (spec : Volume) (probe : Option Text)
    (rounds : List (ℕ × Answer)) (db : Store) (dev_id : ℤ)
    → get_persisted_id pod (device_name hex_sum pod spec.name) db ≡ some dev_id
    → create_volume hex_sum disk pod spec probe rounds db
      ≡ after_loop
          (finish disk pod (device_name hex_sum pod spec.name) (restores dev_id) probe spec db)
          (create_loop (restores dev_id) dev_id rounds)
unfolding create_volume
create_volume-step hex_sum disk pod spec probe rounds db dev_id e = rw (e, create_volume) refl

-- A loop that makes a device has come to an end.
after_loop-made :
    (done : ℤ → Outcome) (o : Option (Option ℤ)) (id : ℤ) (v : Volume) (db : Store)
    → ((n : ℤ) → done n ≡ made id v db → n ≡ id)
    → after_loop done o ≡ made id v db
    → (o ≡ some (some id)) × (done id ≡ made id v db)
after_loop-made done none id v db same h = absurd (ground (arith, h))
after_loop-made done (some none) id v db same h = absurd (ground (arith, h))
after_loop-made done (some (some n)) id v db same h = (
  ap (λ (k : ℤ). some (some k)) (same n h),
  subst (λ (k : ℤ). done k ≡ made id v db) (same n h) h,
)

abbrev store_of : Outcome → Store → Store
store_of panicked db = db
store_of going_on db = db
store_of refused db = db
store_of (made n v db') db = db'

abbrev number_of : Outcome → ℤ → ℤ
number_of panicked z = z
number_of going_on z = z
number_of refused z = z
number_of (made n v db) z = n

abbrev pub source_of : Outcome → Text
source_of panicked = []
source_of going_on = []
source_of refused = []
source_of (made n v db) = v.source

create_volume-panic :
    (hex_sum : Text → Text) (disk : Leveldb) (pod : Text) (spec : Volume) (probe : Option Text)
    (rounds : List (ℕ × Answer)) (db : Store)
    → get_persisted_id pod (device_name hex_sum pod spec.name) db ≡ none
    → create_volume hex_sum disk pod spec probe rounds db ≡ panicked
unfolding create_volume
create_volume-panic hex_sum disk pod spec probe rounds db e = rw (e, create_volume) refl

panic-made : (id : ℤ) (v : Volume) (db : Store) → panicked ≢ made id v db
panic-made id v db e = ground (arith, e)

-- The store that CreateVolume leaves.
pub create_volume-store :
    (hex_sum : Text → Text) (disk : Leveldb) (pod : Text) (spec : Volume) (probe : Option Text)
    (rounds : List (ℕ × Answer)) (db : Store) (id : ℤ) (v : Volume) (db' : Store)
    → create_volume hex_sum disk pod spec probe rounds db ≡ made id v db'
    → db'
      ≡ (update_pod_volume disk pod
          (device_name hex_sum pod spec.name)
          (record_of (device_name hex_sum pod spec.name) id)
          db).0
create_volume-store hex_sum disk pod spec probe rounds db id v db' h =
    of_id (get_persisted_id pod (device_name hex_sum pod spec.name) db) refl
  where
    of_id :
        (o : Option ℤ)
        → get_persisted_id pod (device_name hex_sum pod spec.name) db ≡ o
        → db'
          ≡ (update_pod_volume disk pod
              (device_name hex_sum pod spec.name)
              (record_of (device_name hex_sum pod spec.name) id)
              db).0
    of_id none e = absurd (
        panic-made id v db' (sym (create_volume-panic hex_sum disk pod spec probe rounds db e) ∙ h))
    of_id (some dev_id) e =
        let parts =
          after_loop-made
            (finish disk pod (device_name hex_sum pod spec.name) (restores dev_id) probe spec db)
            (create_loop (restores dev_id) dev_id rounds) id v db'
            (λ n d. ap (λ o. number_of o (pos 0)) d)
            (sym (create_volume-step hex_sum disk pod spec probe rounds db dev_id e) ∙ h) in
        sym (ap (λ o. store_of o []) parts.1)

-- A volume of the pod `other` has been created on a device that no record of the pods whose ids
-- begin with `pod` names, and the database has written the record. Then the number of the device
-- is found for the pod `pod` too.
module _ (hex_sum : Text → Text) (no_colon : (t : Text) → has_colon (hex_sum t) ≡ false)
    (disk : Leveldb) (pod other : Text) (spec : Volume) (db : Store)
    (begins : (device : Text) → has_prefix (prefix_volume pod) (key_volume other device) ≡ true)
    (fresh : NoneOf (device_name hex_sum other spec.name) (list_pod_volumes pod db))
    (fresh_other : NoneOf (device_name hex_sum other spec.name) (list_pod_volumes other db))
    (absent : lookup (key_volume other (device_name hex_sum other spec.name)) db ≡ none)
    (writes : disk.puts (key_volume other (device_name hex_sum other spec.name)) ≡ true) where
  created-parts :
      (probe : Option Text) (rounds : List (ℕ × Answer)) (id : ℤ) (v : Volume) (db' : Store)
      → create_volume hex_sum disk other spec probe rounds db ≡ made id v db'
      → (create_loop false (pos 0) rounds ≡ some (some id))
        × (finish disk other (device_name hex_sum other spec.name) false probe spec db id
            ≡ made id v db')
  created-parts probe rounds id v db' h =
      let none_found : get_persisted_id other (device_name hex_sum other spec.name) db
          ≡ some (pos 0) =
        unfold get_persisted_id in
        id_loop-NoneOf _ (list_pod_volumes other db) (pos 0) fresh_other in
      after_loop-made _ _ id v db' (λ n e. ap (λ o. number_of o (pos 0)) e)
        (sym (create_volume-step hex_sum disk other spec probe rounds db (pos 0) none_found) ∙ h)

  pub persisted :
      (probe : Option Text) (rounds : List (ℕ × Answer)) (id : ℤ) (v : Volume) (db' : Store)
      → create_volume hex_sum disk other spec probe rounds db ≡ made id v db'
      → get_persisted_id pod (device_name hex_sum other spec.name) db' ≡ some id
  persisted probe rounds id v db' h =
      let parts = created-parts probe rounds id v db' h in
      let number = create_loop-id rounds (pos 0) id parts.0 in
      let device = device_name hex_sum other spec.name in
      let key = key_volume other device in
      let stored : db' ≡ db ++ (key, record_of device id) ∷ [] =
        sym (ap (λ o. store_of o []) parts.1)
        ∙ (unfold update_pod_volume in
            update-absent disk key (record_of device id) db absent writes) in
      unfold get_persisted_id in
      (ap (λ (d : Store). id_loop device (list_pod_volumes pod d) (pos 0)) stored
        ∙ (ap (λ (l : List Text). id_loop device l (pos 0))
              (list_pod_volumes-append pod key (record_of device id) db (begins device))
            ∙ (id_loop-append device (list_pod_volumes pod db) (record_of device id ∷ []) (pos 0)
                  fresh
                ∙ (ap (λ (k : ℤ). id_loop device (record_of device k ∷ []) (pos 0)) number.1
                    ∙ (id_loop-record_of device number.0 (pos 0) (no_colon (other ++ spec.name))
                          (omega (arith, number.3))
                        ∙ ap some (sym number.1))))))

  -- CreateVolume for the pod `pod`, with a name that gives the same device, takes it again.
  pub taken_again :
      (probe : Option Text) (rounds : List (ℕ × Answer)) (id : ℤ) (v : Volume) (db' : Store)
      (spec' : Volume) (probe' : Option Text) (draw : ℕ) (rounds' : List (ℕ × Answer))
      → device_name hex_sum pod spec'.name ≡ device_name hex_sum other spec.name
      → create_volume hex_sum disk other spec probe rounds db ≡ made id v db'
      → create_volume hex_sum disk pod spec' probe' ((draw, created) ∷ rounds') db'
        ≡ finish disk pod (device_name hex_sum pod spec'.name) true probe' spec' db' id
  taken_again probe rounds id v db' spec' probe' draw rounds' same h =
      let parts = created-parts probe rounds id v db' h in
      let number = create_loop-id rounds (pos 0) id parts.0 in
      let positive : restores id ≡ true =
        ap restores number.1 ∙ ground (arith, number.2, lt→ltb 0 number.0) in
      create_volume-step hex_sum disk pod spec' probe' ((draw, created) ∷ rounds') db' id
        (ap (λ (d : Text). get_persisted_id pod d db') same ∙ persisted probe rounds id v db' h)
      ∙ (rw positive (unfold create_loop in refl))
