-- ===== src/Migration/Moved.antt =====
-- daemon/pod/migration.go: a migrated pod finds the records of its volumes under the id of its spec.
use hyperd.Prelude.{
  ◌≡◌, refl, sym, ap, ◌∙◌, arith, inl, true, false, Option, none, some, List, [], ◌∷◌, ◌++◌, any,
  All, lookup, ◌==◌, Result, ok, err,
}
use hyperd.Prelude.Text.{Text, text_eq}
use hyperd.Store.{Store, Disk, has_prefix, key_p2v, key_vm_data, key_volume, update, legacy_get_p2c}
use hyperd.Migration.{
  Outside, Spec, Volume, Error, undecodable, Drivers, volume_loop, setup_volumes, with_volumes,
  save_each, persist_legacy_pod, save_sandbox, sandbox_key, migrate_pod, and_then,
  setup_container_id, decoded, matched, give_ids, Container,
}
use hyperd.Migration.Volumes.{volume_prefix, update-other, lookup-purge}
use hyperd.Migration.Kept.{volume_loop-Written}

and_then-ok :
    (r : Store × Result Error Spec) (next : Spec → Store → Store × Result Error Spec) (d : Store)
    (s : Spec)
    → and_then r next ≡ (d, ok s)
    → (t : Store) × (m : Spec) × (r ≡ (t, ok m)) × (next m t ≡ (d, ok s))
and_then-ok (t, err e) next d s h = absurd (ground (arith, ap (λ p. p.1) h))
and_then-ok (t, ok m) next d s h = (t, m, refl, h)

save_each-other :
    (disk : Disk) (ms : List (Text × Text)) (j : Text) (db : Store)
    → All (λ m. has_prefix volume_prefix m.0 ≡ false) ms
    → has_prefix volume_prefix j ≡ true
    → lookup j (save_each disk ms db).0 ≡ lookup j db
unfolding save_each
save_each-other disk [] j db f h = refl
save_each-other disk ((k, m) ∷ ms) j db (f, fs) h =
    ground
      (arith, update-other disk k m j db f h, save_each-other disk ms j (update disk k m db).0 fs h)

persist_legacy_pod-other :
    (out : Outside) (disk : Disk) (spec : Spec) (j : Text) (db : Store)
    → ((ms : List (Text × Text))
        → out.messages spec ≡ some ms
        → All (λ m. has_prefix volume_prefix m.0 ≡ false) ms)
    → has_prefix volume_prefix j ≡ true
    → lookup j (persist_legacy_pod out disk spec db).0 ≡ lookup j db
unfolding persist_legacy_pod
persist_legacy_pod-other out disk spec j db f h = of_messages (out.messages spec) refl
  where
    of_messages :
        (o : Option (List (Text × Text)))
        → out.messages spec ≡ o
        → lookup j (persist_legacy_pod out disk spec db).0 ≡ lookup j db
    of_messages none q = rw (q, persist_legacy_pod) refl
    of_messages (some ms) q = rw (q, persist_legacy_pod) (save_each-other disk ms j db (f ms q) h)

save_sandbox-other :
    (out : Outside) (disk : Disk) (pod : Text) (spec : Spec) (j : Text) (db : Store)
    → has_prefix volume_prefix j ≡ true
    → lookup j (save_sandbox out disk pod spec db).0 ≡ lookup j db
unfolding save_sandbox
save_sandbox-other out disk pod spec j db h = of_vm (lookup (key_p2v pod) db) refl
  where
    of_info :
        (vm : Text) (o : Option Text)
        → lookup (key_p2v pod) db ≡ some vm
        → lookup (key_vm_data vm) db ≡ o
        → lookup j (save_sandbox out disk pod spec db).0 ≡ lookup j db
    of_info vm none q r = rw (q, save_sandbox) (rw r refl)
    of_info vm (some info) q r =
        rw (q, save_sandbox)
          (rw r (update-other disk (sandbox_key spec.id) (out.sandbox_info vm info) j db refl h))

    of_vm :
        (o : Option Text)
        → lookup (key_p2v pod) db ≡ o
        → lookup j (save_sandbox out disk pod spec db).0 ≡ lookup j db
    of_vm none q = rw (q, save_sandbox) refl
    of_vm (some vm) q = of_info vm (lookup (key_vm_data vm) db) q refl

-- setupContanerID changes containers only.
setup_container_id-same :
    (out : Outside) (pod : Text) (spec s : Spec) (db : Store)
    → setup_container_id out pod spec db ≡ ok s
    → (s.id ≡ spec.id) × (s.volumes ≡ spec.volumes)
unfolding setup_container_id
setup_container_id-same out pod spec s db h = of_ids (legacy_get_p2c pod db) refl
  where
    of_matched :
        (o : Option (List Container))
        → matched spec o ≡ ok s
        → (s.id ≡ spec.id) × (s.volumes ≡ spec.volumes)
    of_matched none e = absurd (ground (arith, e))
    of_matched (some cs) e = (ground (arith, e), ground (arith, e))

    of_ids :
        (o : Option (List Text))
        → legacy_get_p2c pod db ≡ o
        → (s.id ≡ spec.id) × (s.volumes ≡ spec.volumes)
    of_ids none q = absurd (ground (arith, h, q))
    of_ids (some ids) q =
        of_matched (give_ids out.inspect ids spec.containers) (ground (arith, h, q))

setup_volumes-undecodable :
    (out : Outside) (disk : Disk) (pod persist : Text) (spec : Spec) (db : Store)
    → out.drivers persist ≡ none
    → setup_volumes out disk pod persist spec db ≡ (db, err undecodable)
unfolding setup_volumes
setup_volumes-undecodable out disk pod persist spec db q = rw (q, setup_volumes) refl

setup_volumes-drivers :
    (out : Outside) (disk : Disk) (pod persist : Text) (spec : Spec) (db : Store) (ds : Drivers)
    → out.drivers persist ≡ some ds
    → setup_volumes out disk pod persist spec db ≡ volume_loop disk pod spec.id spec.volumes ds db
unfolding setup_volumes
setup_volumes-drivers out disk pod persist spec db ds q = rw (q, setup_volumes) refl

setup_volumes-loop :
    (out : Outside) (disk : Disk) (pod persist : Text) (spec m : Spec) (db t : Store)
    → with_volumes spec (setup_volumes out disk pod persist spec db) ≡ (t, ok m)
    → (ds : Drivers) × (ws : List Volume) × (volume_loop disk pod spec.id spec.volumes ds db
        ≡ (t, ok ws))
setup_volumes-loop out disk pod persist spec m db t h = of_drivers (out.drivers persist) refl
  where
    of_loop :
        (r : Store × Result Error (List Volume))
        → with_volumes spec r ≡ (t, ok m)
        → (ws : List Volume) × (r ≡ (t, ok ws))
    of_loop (u, err e) g = absurd (ground (arith, ap (λ p. p.1) g))
    of_loop (u, ok ws) g = (ws, λ i. ((ap (λ p. p.0) g) i, ok ws))

    of_drivers :
        (o : Option Drivers)
        → out.drivers persist ≡ o
        → (ds : Drivers) × (ws : List Volume) × (volume_loop disk pod spec.id spec.volumes ds db
            ≡ (t, ok ws))
    of_drivers none q =
        let w =
          of_loop (db, err undecodable)
            (ap (with_volumes spec) (sym (setup_volumes-undecodable out disk pod persist spec db q))
              ∙ h) in
        absurd (ground (arith, ap (λ p. p.1) w.1))
    of_drivers (some ds) q =
        let w = of_loop (volume_loop disk pod spec.id spec.volumes ds db) (
          ap (with_volumes spec) (sym (setup_volumes-drivers out disk pod persist spec db ds q))
          ∙ h) in
        (ds, w.0, w.1)

-- Where the id of a pod's spec does not begin with the legacy id, with a dash behind it, the record
-- that the database has of a volume of the spec is found under the id of the spec when the pod has
-- been migrated.
pub migrate_pod-moved :
    (out : Outside) (disk : Disk) (pod persist : Text) (spec : Spec) (volume info : Text)
    (db d : Store) (s : Spec)
    → out.decode persist ≡ some spec
    → ((x : Text) → has_prefix pod (spec.id ++ b'-' ∷ x) ≡ false)
    → ((m : Spec) (ms : List (Text × Text))
        → out.messages m ≡ some ms
        → All (λ m. has_prefix volume_prefix m.0 ≡ false) ms)
    → any (λ v. v.name == volume) spec.volumes ≡ true
    → lookup (key_volume pod volume) db ≡ some info
    → migrate_pod out disk pod persist db ≡ (d, ok s)
    → lookup (key_volume spec.id volume) d ≡ some info
unfolding migrate_pod
migrate_pod-moved out disk pod persist spec volume info db d s dec apart foreign among given h =
    let c1 = and_then-ok (db, decoded (out.decode persist)) _ d s h in
    let c2 = and_then-ok (c1.0, setup_container_id out pod c1.1 c1.0) _ d s c1.3 in
    let c3 =
      and_then-ok (with_volumes c2.1 (setup_volumes out disk pod persist c2.1 c2.0)) _ d s c2.3 in
    let c4 = and_then-ok (persist_legacy_pod out disk c3.1 c3.0) _ d s c3.3 in
    let c5 = and_then-ok (save_sandbox out disk pod c4.1 c4.0) _ d s c4.3 in
    let decoded_as : c1.1 ≡ spec = ground (arith, dec, ap (λ p. p.1) c1.2) in
    let same = setup_container_id-same out pod c1.1 c2.1 c1.0 (ap (λ p. p.1) c2.2) in
    let id_same : c2.1.id ≡ spec.id = same.0 ∙ ap (λ (m : Spec). m.id) decoded_as in
    let volumes_same : c2.1.volumes ≡ spec.volumes =
      same.1 ∙ ap (λ (m : Spec). m.volumes) decoded_as in
    let store_same : db ≡ c2.0 = ap (λ p. p.0) c1.2 ∙ ap (λ p. p.0) c2.2 in
    let loop = setup_volumes-loop out disk pod persist c2.1 c3.1 c2.0 c3.0 c3.2 in
    let looped : volume_loop disk pod spec.id spec.volumes loop.0 db ≡ (c3.0, ok loop.1) =
      ap (λ (x : Text). volume_loop disk pod x spec.volumes loop.0 db) (sym id_same)
      ∙ (ap (λ (x : List Volume). volume_loop disk pod c2.1.id x loop.0 db) (sym volumes_same)
          ∙ (ap (λ (x : Store). volume_loop disk pod c2.1.id c2.1.volumes loop.0 x) store_same
              ∙ loop.2)) in
    let copied =
      volume_loop-Written disk pod spec.id volume info apart spec.volumes loop.0 db given
        (inl among) c3.0 loop.1 looped in
    let k = key_volume spec.id volume in
    sym (ap (λ p. lookup k p.0) c5.3)
    ∙ (lookup-purge disk pod spec.id volume c5.0
        ∙ (rw (apart volume) (
            sym (ap (λ p. lookup k p.0) c5.2)
            ∙ (save_sandbox-other out disk pod c4.1 k c4.0 refl
                ∙ (sym (ap (λ p. lookup k p.0) c4.2)
                    ∙ (persist_legacy_pod-other out disk c3.1 k c3.0 (foreign c3.1) refl
                        ∙ copied))))))
