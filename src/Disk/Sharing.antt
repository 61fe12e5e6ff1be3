-- ===== src/Disk/Sharing.antt =====
-- daemon/storage.go: a volume that is created again keeps its device; pods whose ids begin alike can
-- come to share one; a volume that was just created is not removed by its name.
use hyperd.Prelude.{
  ℕ, ◌≡◌, ◌≢◌, refl, sym, ap, ◌∙◌, arith, Bool, true, false, Bool-cases, inl, inr, ◌==◌, ==_iff,
  Option, none, List, ◌∷◌, ◌++◌, append_assoc, lookup, Result, err,
}
use hyperd.Prelude.Text.{Text, text_eq}
use hyperd.Prelude.Int.{ℤ}
use hyperd.Names.{cut}
use hyperd.Names.Reading.{cut-without}
use hyperd.Store.{Store, key_volume, prefix_volume, has_prefix, list_pod_volumes, update_pod_volume}
use hyperd.Store.Laws.{has_prefix-append, key_volume-cancel, lookup-update}
use hyperd.Store.Kinds.{has_colon}
use hyperd.Disk.{
  Leveldb, device_name, vol_pool_name, record_of, Answer, created, Volume, made, create_volume,
  finish, remove_volume, Error, not_found, fields_of, delete_device,
}
use hyperd.Disk.Records.{NoneOf}
use hyperd.Disk.Restore.{taken_again, create_volume-store}

-- A device of the pod that the records do not name yet, and a database that writes its record.
pub record New (hex_sum : Text → Text) (disk : Leveldb) (pod volume : Text) (db : Store)
    : Type 0 where
  pub unnamed : NoneOf (device_name hex_sum pod volume) (list_pod_volumes pod db)
  pub absent : lookup (key_volume pod (device_name hex_sum pod volume)) db ≡ none
  pub writes : disk.puts (key_volume pod (device_name hex_sum pod volume)) ≡ true

-- Once CreateVolume has made a new volume, CreateVolume for the same pod and name, which the device
-- mapper carries out, gives the same device again, whatever is drawn.
pub create_volume_again :
    (hex_sum : Text → Text) (disk : Leveldb) (pod : Text) (spec : Volume) (db : Store)
    → ((t : Text) → has_colon (hex_sum t) ≡ false)
    → New hex_sum disk pod spec.name db
    → (probe : Option Text) (rounds : List (ℕ × Answer)) (id : ℤ) (v : Volume) (db' : Store)
    → create_volume hex_sum disk pod spec probe rounds db ≡ made id v db'
    → (probe' : Option Text) (draw : ℕ) (rounds' : List (ℕ × Answer))
    → create_volume hex_sum disk pod spec probe' ((draw, created) ∷ rounds') db'
      ≡ finish disk pod (device_name hex_sum pod spec.name) true probe' spec db' id
create_volume_again hex_sum disk pod spec db no_colon new probe rounds id v db' h probe' draw
      rounds' =
    taken_again hex_sum no_colon disk pod pod spec db
      (λ device. has_prefix-append pod (b'-' ∷ device)) new.unnamed new.unnamed new.absent
      new.writes probe rounds id v db' spec probe' draw rounds' refl h

not_equal : (a b : Text) → a ≢ b → a == b ≡ false
not_equal a b h = elim (Bool-cases (a == b)) [ inl e ↦ absurd (h ((==_iff a b).0 e)) | inr e ↦ e ]

begins :
    (pod more device : Text)
    → has_prefix (prefix_volume pod) (key_volume (pod ++ more) device) ≡ true
begins pod more device =
    rw (append_assoc pod more (b'-' ∷ device)) (has_prefix-append pod (more ++ b'-' ∷ device))

-- A volume of a pod whose id is longer by `more`, and the volume of the pod whose name is longer by
-- `more`, share the device: with no record that names the device of the one before, CreateVolume
-- for the other, which the device mapper carries out, takes the device of the first.
pub create_volume_shared :
    (hex_sum : Text → Text) (disk : Leveldb) (pod more : Text) (spec : Volume) (db : Store)
    → ((t : Text) → has_colon (hex_sum t) ≡ false)
    → New hex_sum disk (pod ++ more) spec.name db
    → NoneOf (device_name hex_sum (pod ++ more) spec.name) (list_pod_volumes pod db)
    → (probe : Option Text) (rounds : List (ℕ × Answer)) (id : ℤ) (v : Volume) (db' : Store)
    → create_volume hex_sum disk (pod ++ more) spec probe rounds db ≡ made id v db'
    → (spec' : Volume) → spec'.name ≡ more ++ spec.name
    → (probe' : Option Text) (draw : ℕ) (rounds' : List (ℕ × Answer))
    → create_volume hex_sum disk pod spec' probe' ((draw, created) ∷ rounds') db'
      ≡ finish disk pod (device_name hex_sum (pod ++ more) spec.name) true probe' spec' db' id
create_volume_shared hex_sum disk pod more spec db no_colon new none_of probe rounds id v db' h
      spec' e probe' draw rounds' =
    let same : device_name hex_sum pod spec'.name ≡ device_name hex_sum (pod ++ more) spec.name =
      ap (device_name hex_sum pod) e
      ∙ ap (λ (t : Text). vol_pool_name ++ (b'-' ∷ hex_sum t))
          (sym (append_assoc pod more spec.name)) in
    taken_again hex_sum no_colon disk pod (pod ++ more) spec db (begins pod more) none_of
      new.unnamed new.absent new.writes probe rounds id v db' spec' probe' draw rounds' same h
    ∙ ap (λ (d : Text). finish disk pod d true probe' spec' db' id) same

fields_of-absent :
    (pod name : Text) (db : Store)
    → cut b':' name ≡ (name, none)
    → lookup (key_volume pod name) db ≡ none
    → fields_of pod name db ≡ err not_found
fields_of-absent pod name db c e = ground (arith, c, e)

remove_volume-absent :
    (deletes : ℤ → Bool) (disk : Leveldb) (pod name : Text) (db : Store)
    → cut b':' name ≡ (name, none)
    → lookup (key_volume pod name) db ≡ none
    → remove_volume deletes disk pod name db ≡ (db, err not_found)
unfolding remove_volume
remove_volume-absent deletes disk pod name db c e =
    ap (λ (r : Result Error (Text × Text)). delete_device deletes disk pod r db)
      (fields_of-absent pod name db c e)

-- RemoveVolume with the name of a volume that CreateVolume has just made finds no record, where none
-- stood under the name before: the device and its record stay.
pub remove_volume-create_volume :
    (hex_sum : Text → Text) (disk : Leveldb) (deletes : ℤ → Bool) (pod : Text) (spec : Volume)
    (db : Store)
    → has_colon spec.name ≡ false
    → spec.name ≢ device_name hex_sum pod spec.name
    → lookup (key_volume pod spec.name) db ≡ none
    → (probe : Option Text) (rounds : List (ℕ × Answer)) (id : ℤ) (v : Volume) (db' : Store)
    → create_volume hex_sum disk pod spec probe rounds db ≡ made id v db'
    → remove_volume deletes disk pod spec.name db' ≡ (db', err not_found)
remove_volume-create_volume hex_sum disk deletes pod spec db no_colon differ absent probe rounds id
      v db' h =
    let device = device_name hex_sum pod spec.name in
    let other : key_volume pod device == key_volume pod spec.name ≡ false =
      not_equal (key_volume pod device) (key_volume pod spec.name)
        (λ e. differ (sym (key_volume-cancel pod device spec.name e))) in
    let still : lookup (key_volume pod spec.name) db' ≡ none =
      ap (lookup (key_volume pod spec.name))
        (create_volume-store hex_sum disk pod spec probe rounds db id v db' h)
      ∙ (unfold update_pod_volume in
          (lookup-update disk (key_volume pod device) (record_of device id) db
              (key_volume pod spec.name)
            ∙ (rw other absent))) in
    remove_volume-absent deletes disk pod spec.name db' (cut-without b':' spec.name no_colon) still
