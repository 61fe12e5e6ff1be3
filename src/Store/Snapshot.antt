-- ===== src/Store/Snapshot.antt =====
-- daemon/daemondb/daemondb.go: the entries of legacy pods that a snapshot of the database takes.
use hyperd.Prelude.{
  ◌≡◌, ◌≢◌, refl, sym, ap, ◌∙◌, subst, arith, ◌⊎◌, inl, inr, Bool, true, false, ◌&&◌, Bool-cases,
  none, [], ◌∷◌, any, All, lookup, ◌==◌, ==_iff, ==_refl,
}
use hyperd.Prelude.Text.{Text, text_eq}
use hyperd.Store.{Store, has_prefix, prefix_pod, is_pod_key, legacy_get_all_pods, prefix_list2chan}

abbrev pub ArePods : Store → Type 0
ArePods items = All (λ e. has_prefix prefix_pod e.0 ≡ true) items

abbrev pub taken : Text → Bool
taken k = has_prefix prefix_pod k && is_pod_key k

snapshot-taken :
    (k v : Text) (db : Store)
    → taken k ≡ true
    → legacy_get_all_pods ((k, v) ∷ db) ≡ (k, v) ∷ legacy_get_all_pods db
unfolding legacy_get_all_pods prefix_list2chan
snapshot-taken k v db h = ground (arith, h)

snapshot-passed :
    (k v : Text) (db : Store)
    → taken k ≡ false
    → legacy_get_all_pods ((k, v) ∷ db) ≡ legacy_get_all_pods db
unfolding legacy_get_all_pods prefix_list2chan
snapshot-passed k v db h = ground (arith, h)

pub snapshot-ArePods : (db : Store) → ArePods (legacy_get_all_pods db)
snapshot-ArePods [] = unfold legacy_get_all_pods in unfold prefix_list2chan in tt
snapshot-ArePods ((k, v) ∷ db) = of_taken (Bool-cases (taken k)) (snapshot-ArePods db)
  where
    of_taken :
        (taken k ≡ true) ⊎ (taken k ≡ false)
        → ArePods (legacy_get_all_pods db)
        → ArePods (legacy_get_all_pods ((k, v) ∷ db))
    of_taken (inl t) ih = subst ArePods (sym (snapshot-taken k v db t)) (ground (arith, t), ih)
    of_taken (inr f) ih = subst ArePods (sym (snapshot-passed k v db f)) ih

taken-differs : (k j : Text) → taken k ≡ false → taken j ≡ true → k == j ≡ false
taken-differs k j f t = elim (Bool-cases (k == j)) [
  | inl same ↦ absurd (clash (sym t ∙ (sym (ap taken ((==_iff k j).0 same)) ∙ f)))
  | inr d ↦ d
]
  where
    clash : true ≢ false
    clash e = ground (arith, e)

-- A snapshot has an entry for each key of a pod that has a value.
pub snapshot_complete :
    (j : Text) (db : Store)
    → taken j ≡ true
    → any (λ e. e.0 == j) (legacy_get_all_pods db) ≡ false
    → lookup j db ≡ none
unfolding lookup
snapshot_complete j [] t h = refl
snapshot_complete j ((k, v) ∷ db) t h = of_taken (Bool-cases (taken k)) (snapshot_complete j db t)
  where
    of_taken :
        (taken k ≡ true) ⊎ (taken k ≡ false)
        → (any (λ e. e.0 == j) (legacy_get_all_pods db) ≡ false → lookup j db ≡ none)
        → lookup j ((k, v) ∷ db) ≡ none
    of_taken (inl g) ih = ground (arith, h, snapshot-taken k v db g, ih)
    of_taken (inr f) ih = ground (arith, h, snapshot-passed k v db f, ih, taken-differs k j f t)

pub snapshot-empty :
    (db : Store) → ((j : Text) → taken j ≡ true → lookup j db ≡ none) → legacy_get_all_pods db ≡ []
unfolding lookup
snapshot-empty [] h = unfold legacy_get_all_pods in unfold prefix_list2chan in refl
snapshot-empty ((k, v) ∷ db) h = of_taken (Bool-cases (taken k)) (snapshot-empty db)
  where
    of_taken :
        (taken k ≡ true) ⊎ (taken k ≡ false)
        → (((j : Text) → taken j ≡ true → lookup j db ≡ none) → legacy_get_all_pods db ≡ [])
        → legacy_get_all_pods ((k, v) ∷ db) ≡ []
    of_taken (inl t) ih = absurd (ground (arith, h k t, ==_refl k))
    of_taken (inr f) ih =
        snapshot-passed k v db f ∙ ih (λ j t. ground (arith, h j t, taken-differs k j f t))
