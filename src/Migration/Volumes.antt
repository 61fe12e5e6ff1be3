-- ===== src/Migration/Volumes.antt =====
-- daemon/pod/migration.go: the records of volumes, which setupVolumes copies to the id of the spec,
-- and which purgeLagecyPersistPod then removes by their prefix.
use hyperd.Prelude.{
  ◌≡◌, refl, ◌∙◌, subst, arith, true, false, ◌&&◌, Option, none, some, ◌∷◌, ◌++◌, lookup,
  lookup-delete, if◌then◌else◌, ok, append_assoc,
}
use hyperd.Prelude.Text.{Text, text_eq, codes}
use hyperd.Store.{
  Store, Disk, has_prefix, key_pod, key_p2c, key_p2v, key_vm_data, key_volume, update, remove,
  legacy_delete_vm_by_pod,
}
use hyperd.Store.Laws.{lookup-update, has_prefix-append}
use hyperd.Store.Kinds.{lookup-delete_pod_volumes}
use hyperd.Migration.{Outside, Spec, purge, migrate_pod}
use hyperd.Migration.Purge.{Ends, migrate_pod-Ends, other_key}

abbrev pub volume_prefix : Text
volume_prefix = codes "vol-"

remove-other :
    (disk : Disk) (k j : Text) (db : Store)
    → has_prefix volume_prefix k ≡ false
    → has_prefix volume_prefix j ≡ true
    → lookup j (remove disk k db).0 ≡ lookup j db
unfolding remove
remove-other disk k j db n h = ground (arith, lookup-delete k j db, other_key volume_prefix k j h n)

pub update-other :
    (disk : Disk) (k value j : Text) (db : Store)
    → has_prefix volume_prefix k ≡ false
    → has_prefix volume_prefix j ≡ true
    → lookup j (update disk k value db).0 ≡ lookup j db
update-other disk k value j db n h =
    ground (arith, lookup-update disk k value db j, other_key volume_prefix k j h n)

legacy_delete_vm_by_pod-other :
    (disk : Disk) (pod j : Text) (db : Store)
    → has_prefix volume_prefix j ≡ true
    → lookup j (legacy_delete_vm_by_pod disk pod db).0 ≡ lookup j db
unfolding legacy_delete_vm_by_pod
legacy_delete_vm_by_pod-other disk pod j db h = of_vm (lookup (key_p2v pod) db) refl
  where
    of_vm :
        (o : Option Text)
        → lookup (key_p2v pod) db ≡ o
        → lookup j (legacy_delete_vm_by_pod disk pod db).0 ≡ lookup j db
    of_vm none q = rw (q, legacy_delete_vm_by_pod) refl
    of_vm (some vm) q =
        rw (q, legacy_delete_vm_by_pod)
          (remove-other disk (key_vm_data vm) j (remove disk (key_p2v pod) db).0 refl h
            ∙ remove-other disk (key_p2v pod) j db refl h)

-- Of the records of volumes the purge removes those whose keys begin with the pod's prefix.
pub lookup-purge :
    (disk : Disk) (pod other volume : Text) (db : Store)
    → lookup (key_volume other volume) (purge disk pod db) ≡ (
        if has_prefix pod (other ++ b'-' ∷ volume) && disk.deletes (key_volume other volume)
        then none
        else lookup (key_volume other volume) db)
unfolding purge
lookup-purge disk pod other volume db =
    let s1 = (legacy_delete_vm_by_pod disk pod db).0 in
    let s2 = (remove disk (key_pod pod) s1).0 in
    let s3 = (remove disk (key_p2c pod) s2).0 in
    let kept : lookup (key_volume other volume) s3 ≡ lookup (key_volume other volume) db =
      remove-other disk (key_p2c pod) (key_volume other volume) s2 refl refl
      ∙ (remove-other disk (key_pod pod) (key_volume other volume) s1 refl refl
          ∙ legacy_delete_vm_by_pod-other disk pod (key_volume other volume) db refl) in
    lookup-delete_pod_volumes disk pod other volume s3 ∙ (rw kept refl)

-- When a pod has been migrated, there is no record left of a volume of a pod whose id begins with
-- the legacy id: where the id of the spec does, the records just copied are gone too.
pub migrate_pod-lost :
    (out : Outside) (disk : Disk) (pod more volume persist : Text) (db d : Store) (s : Spec)
    → disk.deletes (key_volume (pod ++ more) volume) ≡ true
    → migrate_pod out disk pod persist db ≡ (d, ok s)
    → lookup (key_volume (pod ++ more) volume) d ≡ none
migrate_pod-lost out disk pod more volume persist db d s deletes h =
    subst (Ends P) h (migrate_pod-Ends P out disk pod persist db purged)
  where
    P : Store → Type 0
    P t = lookup (key_volume (pod ++ more) volume) t ≡ none

    begins : has_prefix pod ((pod ++ more) ++ b'-' ∷ volume) ≡ true
    begins =
        rw (append_assoc pod more (b'-' ∷ volume)) (has_prefix-append pod (more ++ b'-' ∷ volume))

    purged : (t : Store) → P (purge disk pod t)
    purged t = ground (arith, lookup-purge disk pod (pod ++ more) volume t, begins, deletes)
