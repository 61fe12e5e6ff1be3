-- ===== src/Migration/Again.antt =====
-- daemon/pod/migration.go: a migration without an error leaves no legacy pod behind, so that the
-- next one has nothing to do.
use hyperd.Prelude.{
  ◌≡◌, refl, sym, ap, ◌∙◌, subst, arith, ◌⊎◌, inl, inr, true, Bool-cases, Option, none, some, List,
  [], ◌∷◌, ◌++◌, any, lookup, ◌==◌, ==_iff, Result, ok, err,
}
use hyperd.Prelude.Text.{Text, text_eq}
use hyperd.Store.{
  key_p2v, key_vm_data, Store, Disk, has_prefix, prefix_pod, key_pod, legacy_get_all_pods,
}
use hyperd.Store.Snapshot.{ArePods, taken, snapshot-ArePods, snapshot_complete, snapshot-empty}
use hyperd.Migration.{
  Outside, Spec, Error, setup_volumes, with_volumes, persist_legacy_pod, save_sandbox, sandbox_key,
  migrate_pod, pod_of, drop_prefix, migrate_loop, migrate, setup_container_id, decoded,
}
use hyperd.Migration.Purge.{
  NoNew, Foreign, Ends, update-NoNew, setup_volumes-NoNew, save_each-NoNew, and_then-NoNew,
  migrate_pod-Ends, with_volumes-store, purge-NoNew, purge-gone,
}

module _ (out : Outside) (disk : Disk)
    (foreign : (s : Spec) (ms : List (Text × Text)) → out.messages s ≡ some ms → Foreign ms) where
  persist_legacy_pod-NoNew :
      (spec : Spec) (db : Store) → NoNew db (persist_legacy_pod out disk spec db).0
  unfolding persist_legacy_pod
  persist_legacy_pod-NoNew spec db j h e = of_messages (out.messages spec) refl
    where
      of_messages :
          (o : Option (List (Text × Text)))
          → out.messages spec ≡ o
          → lookup j (persist_legacy_pod out disk spec db).0 ≡ none
      of_messages none q = rw (q, persist_legacy_pod) e
      of_messages (some ms) q =
          rw (q, persist_legacy_pod) (save_each-NoNew disk ms db (foreign spec ms q) j h e)

  save_sandbox-NoNew :
      (pod : Text) (spec : Spec) (db : Store) → NoNew db (save_sandbox out disk pod spec db).0
  unfolding save_sandbox
  save_sandbox-NoNew pod spec db j h e = of_vm (lookup (key_p2v pod) db) refl
    where
      of_info :
          (vm : Text) (o : Option Text)
          → lookup (key_p2v pod) db ≡ some vm
          → lookup (key_vm_data vm) db ≡ o
          → lookup j (save_sandbox out disk pod spec db).0 ≡ none
      of_info vm none q r = rw (q, save_sandbox) (rw r e)
      of_info vm (some info) q r =
          rw (q, save_sandbox)
            (rw r
              (update-NoNew disk (sandbox_key spec.id) (out.sandbox_info vm info) db refl j h e))

      of_vm :
          (o : Option Text)
          → lookup (key_p2v pod) db ≡ o
          → lookup j (save_sandbox out disk pod spec db).0 ≡ none
      of_vm none q = rw (q, save_sandbox) e
      of_vm (some vm) q = of_info vm (lookup (key_vm_data vm) db) q refl

  migrate_pod-NoNew :
      (pod persist : Text) (db : Store) → NoNew db (migrate_pod out disk pod persist db).0
  unfolding migrate_pod
  migrate_pod-NoNew pod persist db =
      and_then-NoNew db (db, decoded (out.decode persist)) _ (λ j h e. e)
        (λ s db0.
          and_then-NoNew db0 (db0, setup_container_id out pod s db0) _ (λ j h e. e)
            (λ spec db1.
              and_then-NoNew db1 (with_volumes spec (setup_volumes out disk pod persist spec db1)) _
                (λ j h e.
                  ap (lookup j)
                    (with_volumes-store spec (setup_volumes out disk pod persist spec db1))
                  ∙ setup_volumes-NoNew out disk pod persist spec db1 j h e)
                (λ full db2.
                  and_then-NoNew db2 (persist_legacy_pod out disk full db2) _
                    (persist_legacy_pod-NoNew full db2)
                    (λ kept db3.
                      and_then-NoNew db3 (save_sandbox out disk pod kept db3) _
                        (save_sandbox-NoNew pod kept db3) (λ last db4. purge-NoNew disk pod db4)))))

  migrate_pod-gone :
      (pod persist : Text) (db : Store)
      → disk.deletes (key_pod pod) ≡ true
      → Ends (λ d. lookup (key_pod pod) d ≡ none) (migrate_pod out disk pod persist db)
  migrate_pod-gone pod persist db deletes =
      migrate_pod-Ends (λ d. lookup (key_pod pod) d ≡ none) out disk pod persist db
        (λ t. purge-gone disk pod t deletes)

append-drop_prefix : (p s : Text) → has_prefix p s ≡ true → p ++ drop_prefix p s ≡ s
append-drop_prefix [] s h = refl
append-drop_prefix (c ∷ p) [] h = ground (arith, h)
append-drop_prefix (c ∷ p) (d ∷ s) h = ground (arith, h, append-drop_prefix p s)

key_pod-pod_of : (key : Text) → has_prefix prefix_pod key ≡ true → key_pod (pod_of key) ≡ key
key_pod-pod_of key h = append-drop_prefix prefix_pod key h

module _ (out : Outside) (disk : Disk)
    (foreign : (s : Spec) (ms : List (Text × Text)) → out.messages s ≡ some ms → Foreign ms)
    (deletes : (k : Text) → disk.deletes k ≡ true) where
  migrate_loop-step :
      (key persist : Text) (items db d : Store) (s : Spec)
      → migrate_pod out disk (pod_of key) persist db ≡ (d, ok s)
      → migrate_loop out disk ((key, persist) ∷ items) db ≡ migrate_loop out disk items d
  unfolding migrate_loop
  migrate_loop-step key persist items db d s e =
      rw (e, migrate_loop)
        (ap (λ (r : Store × Result Error Spec). migrate_loop out disk items r.0) e)

  migrate_loop-failed :
      (key persist : Text) (items db d : Store) (x : Error)
      → migrate_pod out disk (pod_of key) persist db ≡ (d, err x)
      → migrate_loop out disk ((key, persist) ∷ items) db ≡ (d, some x)
  unfolding migrate_loop
  migrate_loop-failed key persist items db d x e =
      rw (e, migrate_loop) (ap (λ (r : Store × Result Error Spec). (r.0, some x)) e)

  first-gone :
      (key persist : Text) (db d : Store) (s : Spec) (j : Text)
      → has_prefix prefix_pod key ≡ true
      → migrate_pod out disk (pod_of key) persist db ≡ (d, ok s)
      → (key == j ≡ true) ⊎ (lookup j db ≡ none)
      → has_prefix prefix_pod j ≡ true
      → lookup j d ≡ none
  first-gone key persist db d s j h e (inl same) hj =
      let gone : lookup (key_pod (pod_of key)) d ≡ none =
        subst (Ends (λ (t : Store). lookup (key_pod (pod_of key)) t ≡ none)) e (
          migrate_pod-gone out disk foreign (pod_of key) persist db
            (deletes (key_pod (pod_of key)))) in
      ap (λ (k : Text). lookup k d) (sym (key_pod-pod_of key h ∙ (==_iff key j).0 same)) ∙ gone
  first-gone key persist db d s j h e (inr absent) hj =
      ap (λ (r : Store × Result Error Spec). lookup j r.0) (sym e)
      ∙ migrate_pod-NoNew out disk foreign (pod_of key) persist db j hj absent

  migrate_loop-gone :
      (items db : Store)
      → ArePods items
      → (migrate_loop out disk items db).1 ≡ none
      → (j : Text) → has_prefix prefix_pod j ≡ true
      → (any (λ e. e.0 == j) items ≡ true) ⊎ (lookup j db ≡ none)
      → lookup j (migrate_loop out disk items db).0 ≡ none
  unfolding migrate_loop
  migrate_loop-gone [] db hs done j hj (inl among) = absurd (ground (arith, among))
  migrate_loop-gone [] db hs done j hj (inr absent) = absent
  migrate_loop-gone ((key, persist) ∷ items) db (h, hs) done j hj given =
      of_first (migrate_pod out disk (pod_of key) persist db) refl
        (λ d. migrate_loop-gone items d hs)
    where
      rest_given :
          (d : Store)
          → ((key == j ≡ true) ⊎ (lookup j db ≡ none) → lookup j d ≡ none)
          → (any (λ e. e.0 == j) items ≡ true) ⊎ (lookup j d ≡ none)
      rest_given d f = elim given [
        | inr absent ↦ inr (f (inr absent))
        | inl among ↦ elim (Bool-cases (key == j)) [
          | inl same ↦ inr (f (inl same))
          | inr differs ↦ inl (ground (arith, among, differs))
        ]
      ]

      of_first :
          (r : Store × Result Error Spec)
          → migrate_pod out disk (pod_of key) persist db ≡ r
          → ((d : Store)
              → (migrate_loop out disk items d).1 ≡ none
              → (i : Text) → has_prefix prefix_pod i ≡ true
              → (any (λ e. e.0 == i) items ≡ true) ⊎ (lookup i d ≡ none)
              → lookup i (migrate_loop out disk items d).0 ≡ none)
          → lookup j (migrate_loop out disk ((key, persist) ∷ items) db).0 ≡ none
      of_first (d, err x) e ih =
          absurd (ground (arith, done, migrate_loop-failed key persist items db d x e))
      of_first (d, ok s) e ih =
          let step = migrate_loop-step key persist items db d s e in
          ap (λ r. lookup j r.0) step
          ∙ ih d (sym (ap (λ r. r.1) step) ∙ done) j hj
              (rest_given d (λ g. first-gone key persist db d s j h e g hj))

-- Where the messages of pods have keys of their own and leveldb carries out every deletion, a
-- migration without an error leaves no legacy pod: the next migration changes nothing.
pub migrate-migrate :
    (out : Outside) (disk : Disk) (db : Store)
    → ((s : Spec) (ms : List (Text × Text)) → out.messages s ≡ some ms → Foreign ms)
    → ((k : Text) → disk.deletes k ≡ true)
    → (migrate out disk db).1 ≡ none
    → (legacy_get_all_pods (migrate out disk db).0 ≡ [])
      × (migrate out disk (migrate out disk db).0 ≡ ((migrate out disk db).0, none))
unfolding migrate
migrate-migrate out disk db foreign deletes done = (empty, again)
  where
    items : Store
    items = legacy_get_all_pods db

    gone : (j : Text) → taken j ≡ true → lookup j (migrate_loop out disk items db).0 ≡ none
    gone j t = elim (Bool-cases (any (λ e. e.0 == j) items)) [
      | inl among ↦
          migrate_loop-gone out disk foreign deletes items db (snapshot-ArePods db) done j
            (ground (arith, t)) (inl among)
      | inr absent ↦
          migrate_loop-gone out disk foreign deletes items db (snapshot-ArePods db) done j
            (ground (arith, t)) (inr (snapshot_complete j db t absent))
    ]

    empty : legacy_get_all_pods (migrate_loop out disk items db).0 ≡ []
    empty = snapshot-empty (migrate_loop out disk items db).0 gone

    again :
        migrate_loop out disk
          (legacy_get_all_pods (migrate_loop out disk items db).0)
          (migrate_loop out disk items db).0
        ≡ ((migrate_loop out disk items db).0, none)
    again = rw empty (unfold migrate_loop in refl)
