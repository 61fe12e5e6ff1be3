-- ===== src/Listing/Snapshot.antt =====
-- daemon/list.go: the pods that a list is about.
use hyperd.Prelude.{
  ◌≡◌, ◌⊎◌, inl, inr, refl, sym, subst, ap, ◌∙◌, arith, ◌↔◌, Bool, true, false, ◌&&◌, ◌||◌,
  Bool-cases, Option, none, some, List, [], ◌∷◌, map, Dict, lookup, ◌==◌, ==_iff, ==_refl, All,
}
use hyperd.Prelude.Text.{Text, text_eq}
use hyperd.Listing.{Pod, sandbox_name, is_nil, find, at_most, snapshot_pod_list}

-- Is the entry one of the map?
abbrev pub Among : Text × Pod → Dict Text Pod → Type 0
Among e [] = true ≡ false
Among e (f ∷ m) = (f ≡ e) ⊎ Among e m

-- Does the pod with its id pass the filters, where an empty filter passes all?
abbrev pub passes : Text → Text → Text × Pod → Bool
passes pod_id vm_id (id, p) =
    (is_nil pod_id || id == pod_id) && (is_nil vm_id || sandbox_name p == vm_id)

-- The pod is one of the map and passes the filters.
abbrev pub Selected : Text → Text → Dict Text Pod → Pod → Type 0
Selected pod_id vm_id pods p =
    (id : Text) × Among (id, p) pods × (passes pod_id vm_id (id, p) ≡ true)

lookup-Among : (id : Text) (p : Pod) (m : Dict Text Pod) → lookup id m ≡ some p → Among (id, p) m
unfolding lookup
lookup-Among id p [] h = absurd (ground arith)
lookup-Among id p ((k, q) ∷ m) h = elim (Bool-cases (k == id)) [
  | inl e ↦ inl (ap (λ x. (x, q)) ((==_iff k id).0 e) ∙ ap (λ r. (id, r)) (ground (arith, h, e)))
  | inr e ↦ inr (lookup-Among id p m (ground (arith, h, e)))
]

find-Among :
    (f : Pod → Bool) (p : Pod) (m : Dict Text Pod)
    → find f m ≡ some p
    → (id : Text) × Among (id, p) m × (f p ≡ true)
unfolding find
find-Among f p [] h = absurd (ground arith)
find-Among f p ((k, q) ∷ m) h = elim (Bool-cases (f q)) [
  | inl e ↦
      let same : q ≡ p = ground (arith, h, e) in
      (k, inl (ap (λ r. (k, r)) same), sym (ap f same) ∙ e)
  | inr e ↦
      let (id, among, holds) = find-Among f p m (ground (arith, h, e)) in (id, inr among, holds)
]

All-Among :
    (m n : Dict Text Pod)
    → ((e : Text × Pod) → Among e n → Among e m)
    → All (Selected [] [] m) (map (λ e. e.1) n)
All-Among m [] h = tt
All-Among m ((k, q) ∷ n) h = ((k, h (k, q) (inl refl), refl), All-Among m n (λ e a. h e (inr a)))

some_injective : (a b : List Pod) → Option.some a ≡ some b → a ≡ b
some_injective a b h = ground arith

-- A snapshot that does not panic and has some pods.
listed :
    (P : Pod → Type 0) (o : Option (List Pod)) (qs : List Pod)
    → o ≡ some qs
    → All P qs
    → (ps : List Pod) → o ≡ some ps
    → All P ps
listed P o qs e all ps h = subst (All P) (some_injective qs ps (sym e ∙ h)) all

found-Selected :
    (vm_id : Text) (pods : Dict Text Pod)
    → is_nil vm_id ≡ false
    → All (Selected [] vm_id pods) (at_most (find (λ p. sandbox_name p == vm_id) pods))
found-Selected vm_id pods given = of_found (find (λ p. sandbox_name p == vm_id) pods) refl
  where
    of_found :
        (o : Option Pod)
        → find (λ p. sandbox_name p == vm_id) pods ≡ o
        → All (Selected [] vm_id pods) (at_most o)
    of_found none e = tt
    of_found (some p) e =
        let (id, among, holds) = find-Among (λ q. sandbox_name q == vm_id) p pods e in
        ((id, among, ground (arith, holds, given)), tt)

-- The pods of a list are pods of the daemon that pass the filters of its request, an empty filter
-- passing all of them.
pub snapshot_pod_list-Selected :
    (pod_id vm_id : Text) (pods : Dict Text Pod) (ps : List Pod)
    → snapshot_pod_list pod_id vm_id pods ≡ some ps
    → All (Selected pod_id vm_id pods) ps
unfolding snapshot_pod_list
snapshot_pod_list-Selected [] [] pods = listed _ _ _ refl (All-Among pods pods (λ e a. a))
snapshot_pod_list-Selected [] (v ∷ vs) pods = listed _ _ _ refl (found-Selected (v ∷ vs) pods refl)
snapshot_pod_list-Selected (c ∷ cs) vm_id pods = of_pod (lookup (c ∷ cs) pods) refl
  where
    of_pod :
        (o : Option Pod)
        → lookup (c ∷ cs) pods ≡ o
        → (ps : List Pod) → snapshot_pod_list (c ∷ cs) vm_id pods ≡ some ps
        → All (Selected (c ∷ cs) vm_id pods) ps
    of_pod o e [] h = tt
    of_pod none e (q ∷ qs) h = absurd (ground (arith, h, e))
    of_pod (some p) e (q ∷ r ∷ qs) h = absurd (ground (arith, h, e))
    of_pod (some p) e (q ∷ []) h =
        let same : p ≡ q = ground (arith, h, e) in
        (
          (
            c ∷ cs,
            lookup-Among (c ∷ cs) q pods (e ∙ ap (λ x. some x) same),
            ground (arith, h, e, ==_refl (c ∷ cs)),
          ),
          tt,
        )

-- A request for a list fails, by a panic, exactly if it names a pod that there is not, and a
-- sandbox too.
pub snapshot_pod_list-none :
    (pod_id vm_id : Text) (pods : Dict Text Pod)
    → (snapshot_pod_list pod_id vm_id pods ≡ none)
      ↔ ((is_nil pod_id ≡ false) × (is_nil vm_id ≡ false) × (lookup pod_id pods ≡ none))
unfolding snapshot_pod_list
snapshot_pod_list-none pod_id vm_id pods = ground arith
