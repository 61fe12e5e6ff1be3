-- ===== src/Migration/Purge.antt =====
-- daemon/pod/migration.go: which keys of pods the steps of a migration leave.
use hyperd.Prelude.{
  ◌≡◌, ◌≢◌, refl, sym, ◌∙◌, subst, arith, inl, inr, Bool, true, false, Bool-cases, Option, none,
  some, List, [], ◌∷◌, All, lookup, lookup-delete, ◌==◌, ==_iff, ==_refl, Result, ok, err,
}
use hyperd.Prelude.Text.{Text, text_eq}
use hyperd.Store.{
  Store, Disk, has_prefix, prefix_pod, key_pod, key_p2c, key_p2v, key_vm_data, key_volume, update,
  remove, update_pod_volume, delete_pod_volumes, prefix_volume, legacy_delete_vm_by_pod,
}
use hyperd.Store.Laws.{lookup-update, lookup-prefix_delete}
use hyperd.Migration.{
  Outside, Spec, Volume, Error, copy_record, volume_loop, setup_volumes, with_volumes, save_each,
  persist_legacy_pod, save_sandbox, purge, migrate_pod, and_then, setup_container_id, decoded,
  copied, Drivers, next_driver,
}

-- No key of a pod has come up.
abbrev pub NoNew : Store → Store → Type 0
NoNew db db' =
    (j : Text) → has_prefix prefix_pod j ≡ true → lookup j db ≡ none → lookup j db' ≡ none

pub other_key : (p k j : Text) → has_prefix p j ≡ true → has_prefix p k ≡ false → k == j ≡ false
other_key p k j h n = elim (Bool-cases (k == j)) [
  | inl e ↦ absurd (clash (subst (λ (t : Text). has_prefix p t ≡ true) (sym ((==_iff k j).0 e)) h))
  | inr e ↦ e
]
  where
    clash : has_prefix p k ≢ true
    clash e = ground (arith, e, n)

pub update-NoNew :
    (disk : Disk) (k value : Text) (db : Store)
    → has_prefix prefix_pod k ≡ false
    → NoNew db (update disk k value db).0
update-NoNew disk k value db n j h e =
    ground (arith, e, lookup-update disk k value db j, other_key prefix_pod k j h n)

update_pod_volume-NoNew :
    (disk : Disk) (pod volume value : Text) (db : Store)
    → NoNew db (update_pod_volume disk pod volume value db).0
unfolding update_pod_volume
update_pod_volume-NoNew disk pod volume value db j h e =
    lookup-update disk (key_volume pod volume) value db j
    ∙ (rw (other_key prefix_pod (key_volume pod volume) j h refl) e)

remove-NoNew : (disk : Disk) (k : Text) (db : Store) → NoNew db (remove disk k db).0
unfolding remove
remove-NoNew disk k db j h e = ground (arith, e, lookup-delete k j db)

delete_pod_volumes-NoNew :
    (disk : Disk) (pod : Text) (db : Store) → NoNew db (delete_pod_volumes disk pod db)
unfolding delete_pod_volumes
delete_pod_volumes-NoNew disk pod db j h e =
    ground (arith, e, lookup-prefix_delete disk (prefix_volume pod) db j)

legacy_delete_vm_by_pod-NoNew :
    (disk : Disk) (pod : Text) (db : Store) → NoNew db (legacy_delete_vm_by_pod disk pod db).0
unfolding legacy_delete_vm_by_pod
legacy_delete_vm_by_pod-NoNew disk pod db j h e = of_vm (lookup (key_p2v pod) db) refl
  where
    of_vm :
        (o : Option Text)
        → lookup (key_p2v pod) db ≡ o
        → lookup j (legacy_delete_vm_by_pod disk pod db).0 ≡ none
    of_vm none q = rw (q, legacy_delete_vm_by_pod) e
    of_vm (some vm) q =
        rw (q, legacy_delete_vm_by_pod)
          (remove-NoNew disk (key_vm_data vm) (remove disk (key_p2v pod) db).0 j h
            (remove-NoNew disk (key_p2v pod) db j h e))

copy_record-NoNew :
    (disk : Disk) (pod id name : Text) (db : Store) → NoNew db (copy_record disk pod id name db).0
unfolding copy_record
copy_record-NoNew disk pod id name db j h e = of_record (lookup (key_volume pod name) db) refl
  where
    of_record :
        (o : Option Text)
        → lookup (key_volume pod name) db ≡ o
        → lookup j (copy_record disk pod id name db).0 ≡ none
    of_record none q = rw (q, copy_record) e
    of_record (some info) q =
        rw (q, copy_record) (update_pod_volume-NoNew disk id name info db j h e)

copied-store :
    (v : Volume) (first : Store × Bool) (rest : Store × Result Error (List Volume)) (j : Text)
    → lookup j first.0 ≡ none
    → lookup j rest.0 ≡ none
    → lookup j (copied v first rest).0 ≡ none
copied-store v (d, true) (r, err e) j h hs = hs
copied-store v (d, true) (r, ok vs) j h hs = hs
copied-store v (d, false) rest j h hs = h

volume_loop-NoNew :
    (disk : Disk) (pod id : Text) (vs : List Volume) (drivers : Drivers) (db : Store)
    → NoNew db (volume_loop disk pod id vs drivers db).0
unfolding volume_loop
volume_loop-NoNew disk pod id [] drivers db j h e = e
volume_loop-NoNew disk pod id (v ∷ vs) drivers db j h e =
    of_next (next_driver drivers) refl (λ ds. volume_loop-NoNew disk pod id vs ds)
  where
    of_next :
        (o : Option (Option Text × Drivers))
        → next_driver drivers ≡ o
        → ((ds : Drivers) (t : Store) → NoNew t (volume_loop disk pod id vs ds t).0)
        → lookup j (volume_loop disk pod id (v ∷ vs) drivers db).0 ≡ none
    of_next none q ih = rw (q, volume_loop) e
    of_next (some (d, ds)) q ih =
        let first = copy_record-NoNew disk pod id v.name db j h e in
        rw (q, volume_loop)
          (copied-store _ (copy_record disk pod id v.name db) _ j first
            (ih ds (copy_record disk pod id v.name db).0 j h first))

pub setup_volumes-NoNew :
    (out : Outside) (disk : Disk) (pod persist : Text) (spec : Spec) (db : Store)
    → NoNew db (setup_volumes out disk pod persist spec db).0
unfolding setup_volumes
setup_volumes-NoNew out disk pod persist spec db j h e = of_drivers (out.drivers persist) refl
  where
    of_drivers :
        (o : Option (Option (List (Option Text))))
        → out.drivers persist ≡ o
        → lookup j (setup_volumes out disk pod persist spec db).0 ≡ none
    of_drivers none q = rw (q, setup_volumes) e
    of_drivers (some ds) q =
        rw (q, setup_volumes) (volume_loop-NoNew disk pod spec.id spec.volumes ds db j h e)

-- The messages of a pod have keys of their own.
abbrev pub Foreign : List (Text × Text) → Type 0
Foreign ms = All (λ m. has_prefix prefix_pod m.0 ≡ false) ms

pub save_each-NoNew :
    (disk : Disk) (ms : List (Text × Text)) (db : Store)
    → Foreign ms
    → NoNew db (save_each disk ms db).0
unfolding save_each
save_each-NoNew disk [] db f j h e = e
save_each-NoNew disk ((k, m) ∷ ms) db (f, fs) j h e =
    let first = update-NoNew disk k m db f j h e in
    ground (arith, first, save_each-NoNew disk ms (update disk k m db).0 fs j h first)

pub and_then-NoNew :
    (db : Store) (r : Store × Result Error Spec) (next : Spec → Store → Store × Result Error Spec)
    → NoNew db r.0
    → ((s : Spec) (d : Store) → NoNew d (next s d).0)
    → NoNew db (and_then r next).0
and_then-NoNew db (db1, err x) next h hs = h
and_then-NoNew db (db1, ok s) next h hs = λ j p e. hs s db1 j p (h j p e)

pub with_volumes-store :
    (spec : Spec) (r : Store × Result Error (List Volume)) → (with_volumes spec r).0 ≡ r.0
with_volumes-store spec (db, err e) = refl
with_volumes-store spec (db, ok vs) = refl

-- Where the migration of a pod ends well, the store has the property.
abbrev pub Ends : (Store → Type 0) → Store × Result Error Spec → Type 0
Ends P (db, err e) = Unit
Ends P (db, ok s) = P db

pub and_then-Ends :
    (P : Store → Type 0) (r : Store × Result Error Spec)
    (next : Spec → Store → Store × Result Error Spec)
    → ((s : Spec) (d : Store) → Ends P (next s d))
    → Ends P (and_then r next)
and_then-Ends P (db, err e) next h = tt
and_then-Ends P (db, ok s) next h = h s db

pub purge-NoNew : (disk : Disk) (pod : Text) (db : Store) → NoNew db (purge disk pod db)
unfolding purge
purge-NoNew disk pod db j h e =
    let s1 = (legacy_delete_vm_by_pod disk pod db).0 in
    let s2 = (remove disk (key_pod pod) s1).0 in
    delete_pod_volumes-NoNew disk pod (remove disk (key_p2c pod) s2).0 j h (
      remove-NoNew disk (key_p2c pod) s2 j h
        (remove-NoNew disk (key_pod pod) s1 j h (legacy_delete_vm_by_pod-NoNew disk pod db j h e)))

pub purge-gone :
    (disk : Disk) (pod : Text) (db : Store)
    → disk.deletes (key_pod pod) ≡ true
    → lookup (key_pod pod) (purge disk pod db) ≡ none
unfolding purge remove
purge-gone disk pod db d =
    let s1 = (legacy_delete_vm_by_pod disk pod db).0 in
    let s2 = (remove disk (key_pod pod) s1).0 in
    let gone : lookup (key_pod pod) s2 ≡ none =
      ground (arith, d, lookup-delete (key_pod pod) (key_pod pod) s1, ==_refl (key_pod pod)) in
    delete_pod_volumes-NoNew disk pod (remove disk (key_p2c pod) s2).0 (key_pod pod) refl
      (remove-NoNew disk (key_p2c pod) s2 (key_pod pod) refl gone)

-- What holds whenever the legacy data have been purged holds when the migration of a pod ends well.
pub migrate_pod-Ends :
    (P : Store → Type 0) (out : Outside) (disk : Disk) (pod persist : Text) (db : Store)
    → ((t : Store) → P (purge disk pod t))
    → Ends P (migrate_pod out disk pod persist db)
unfolding migrate_pod
migrate_pod-Ends P out disk pod persist db h =
    and_then-Ends P (db, decoded (out.decode persist)) _
      (λ s db0.
        and_then-Ends P (db0, setup_container_id out pod s db0) _
          (λ spec db1.
            and_then-Ends P (with_volumes spec (setup_volumes out disk pod persist spec db1)) _
              (λ full db2. and_then-Ends P (persist_legacy_pod out disk full db2) _ (λ kept db3.
                and_then-Ends P (save_sandbox out disk pod kept db3) _ (λ last db4. h db4)))))
