-- ===== src/Services/Keys.antt =====
-- daemon/pod/servicediscovery.go: no two services of a pod have the same key.
use hyperd.Prelude.{
  ◌≡◌, refl, ap, ◌∙◌, ◌⊎◌, inl, inr, Bool, true, false, not, Option, none, some, List, [], ◌∷◌,
  ◌++◌, arith, any, filter, All, Dict, lookup, insert, lookup-insert, ◌==◌, ==_iff, if◌then◌else◌,
  Bool-cases, subst,
}
use hyperd.Services.{
  Service, ServiceKey, key, key_eq, holds, mark, conflicts, partition, Ipvs, Operation, Error,
  State, add, del, update, commit, commit_and_set,
}

-- Has one of the services the key?
abbrev pub has_key : ServiceKey → List Service → Bool
has_key k ss = any (λ s. key s == k) ss

-- Do the services have pairwise different keys?
abbrev pub distinct : List Service → Bool
distinct [] = true
distinct (s ∷ ss) = if has_key (key s) ss then false else distinct ss

holds-insert :
    (k j : ServiceKey) (m : Dict ServiceKey Bool)
    → holds j (insert k true m) ≡ (if k == j then true else holds j m)
holds-insert k j m = rw (lookup-insert k j true m, holds) (of_test (k == j))
  where
    of_test :
        (b : Bool)
        → elim (if b then some true else lookup j m) [ none ↦ false | some c ↦ c ]
          ≡ (if b then true else holds j m)
    of_test true = refl
    of_test false = refl

holds-mark :
    (k : ServiceKey) (ss : List Service) (m : Dict ServiceKey Bool)
    → holds k (mark ss m) ≡ (if has_key k ss then true else holds k m)
unfolding mark
holds-mark k [] m = refl
holds-mark k (s ∷ ss) m =
    ground (arith, holds-mark k ss (insert (key s) true m), holds-insert (key s) k m)

holds-mark_nil : (k : ServiceKey) (ss : List Service) → holds k (mark ss []) ≡ has_key k ss
unfolding lookup
holds-mark_nil k ss = ground (arith, holds-mark k ss [])

-- What an absence of conflicts means: none of the keys is in the map, and they are different.
conflicts-has_key :
    (ss : List Service) (m : Dict ServiceKey Bool) (k : ServiceKey)
    → conflicts ss m ≡ false
    → holds k m ≡ true
    → has_key k ss ≡ false
unfolding conflicts
conflicts-has_key [] m k h e = refl
conflicts-has_key (s ∷ ss) m k h e = ground (
  arith,
  conflicts-has_key ss (insert (key s) true m) k,
  holds-insert (key s) k m,
  ==_iff (key s) k,
)

conflicts-distinct :
    (ss : List Service) (m : Dict ServiceKey Bool) → conflicts ss m ≡ false → distinct ss ≡ true
unfolding conflicts
conflicts-distinct [] m h = refl
conflicts-distinct (s ∷ ss) m h = ground (
  arith,
  conflicts-distinct ss (insert (key s) true m),
  conflicts-has_key ss (insert (key s) true m) (key s),
  holds-insert (key s) (key s) m,
  ==_iff (key s) (key s),
)

-- No key of the services is in the map.
abbrev Unmarked : Dict ServiceKey Bool → List Service → Type 0
Unmarked m = All (λ s. holds (key s) m ≡ false)

Unmarked-insert :
    (k : ServiceKey) (m : Dict ServiceKey Bool) (ss : List Service)
    → Unmarked (insert k true m) ss
    → Unmarked m ss
Unmarked-insert k m [] u = tt
Unmarked-insert k m (s ∷ ss) u =
    (ground (arith, holds-insert k (key s) m, u.0), Unmarked-insert k m ss u.1)

conflicts-Unmarked :
    (ss : List Service) (m : Dict ServiceKey Bool) → conflicts ss m ≡ false → Unmarked m ss
unfolding conflicts
conflicts-Unmarked [] m h = tt
conflicts-Unmarked (s ∷ ss) m h = (
  ground arith,
  Unmarked-insert (key s) m ss (conflicts-Unmarked ss (insert (key s) true m) (ground arith)),
)

-- No key of the second list is one of the first.
abbrev Apart : List Service → List Service → Type 0
Apart ls = All (λ b. has_key (key b) ls ≡ false)

Unmarked-Apart : (ls bs : List Service) → Unmarked (mark ls []) bs → Apart ls bs
Unmarked-Apart ls [] u = tt
Unmarked-Apart ls (b ∷ bs) u =
    (ground (arith, holds-mark_nil (key b) ls, u.0), Unmarked-Apart ls bs u.1)

has_key-append :
    (k : ServiceKey) (ls bs : List Service)
    → has_key k (ls ++ bs) ≡ (if has_key k ls then true else has_key k bs)
has_key-append k [] bs = refl
has_key-append k (a ∷ ls) bs = ground (arith, has_key-append k ls bs)

Apart-first : (a : Service) (ls bs : List Service) → Apart (a ∷ ls) bs → has_key (key a) bs ≡ false
Apart-first a ls [] u = refl
Apart-first a ls (b ∷ bs) u =
    ground (arith, u.0, Apart-first a ls bs u.1, ==_iff (key a) (key b), ==_iff (key b) (key a))

Apart-rest : (a : Service) (ls bs : List Service) → Apart (a ∷ ls) bs → Apart ls bs
Apart-rest a ls [] u = tt
Apart-rest a ls (b ∷ bs) u = (ground (arith, u.0), Apart-rest a ls bs u.1)

distinct-append :
    (ls bs : List Service)
    → distinct ls ≡ true
    → distinct bs ≡ true
    → Apart ls bs
    → distinct (ls ++ bs) ≡ true
distinct-append [] bs da db u = db
distinct-append (a ∷ ls) bs da db u = ground (
  arith,
  has_key-append (key a) ls bs,
  Apart-first a ls bs u,
  distinct-append ls bs (ground arith) db (Apart-rest a ls bs u),
)

partition-has_key :
    (m : Dict ServiceKey Bool) (k : ServiceKey) (ss : List Service)
    → has_key k ss ≡ false
    → has_key k (partition m ss).1 ≡ false
unfolding partition
partition-has_key m k [] h = refl
partition-has_key m k (s ∷ ss) h = ground (arith, partition-has_key m k ss)

distinct-partition :
    (m : Dict ServiceKey Bool) (ss : List Service)
    → distinct ss ≡ true
    → distinct (partition m ss).1 ≡ true
unfolding partition
distinct-partition m [] h = refl
distinct-partition m (s ∷ ss) h =
    ground (arith, distinct-partition m ss, partition-has_key m (key s) ss)

partition-filter :
    (m : Dict ServiceKey Bool) (ss : List Service)
    → partition m ss ≡ (filter (λ s. holds (key s) m) ss, filter (λ s. not (holds (key s) m)) ss)
unfolding partition
partition-filter m [] = refl
partition-filter m (s ∷ ss) = ground (arith, partition-filter m ss)

module _ (v : Ipvs) where
  -- The new list on success, the old one on an error.
  abbrev pub Committed : List Service → List Service → State v × Option Error → Type 0
  Committed new old r =
      ((r.1 ≡ none) × (r.0.0 ≡ new)) ⊎ ((e : Error) × (r.1 ≡ some e) × (r.0.0 ≡ old))

  commit_and_set-Committed :
      (running : Bool) (ss : List Service) (op : Operation) (new : List Service) (st : State v)
      → Committed new st.0 (commit_and_set v running ss op new st)
  unfolding commit_and_set
  commit_and_set-Committed false ss op new (spec, w) = inl (refl, refl)
  commit_and_set-Committed true ss op new (spec, w) = of_error (commit v ss op w)
    where
      of_error :
          (r : v.W × Option Error)
          → Committed new spec
              (elim r.1 [ some x ↦ ((spec, r.0), some x) | none ↦ ((new, r.0), none) ])
      of_error (w', some x) = inr (x, refl, refl)
      of_error (w', none) = inl (refl, refl)

  Committed-distinct :
      (new old : List Service) (r : State v × Option Error)
      → distinct old ≡ true
      → distinct new ≡ true
      → Committed new old r
      → distinct r.0.0 ≡ true
  Committed-distinct new old r ho hn (inl (e, s)) = ap distinct s ∙ hn
  Committed-distinct new old r ho hn (inr (x, e, s)) = ap distinct s ∙ ho

  add-distinct :
      (running : Bool) (srvs : List Service) (st : State v)
      → distinct st.0 ≡ true
      → distinct (add v running srvs st).0.0 ≡ true
  unfolding add
  add-distinct running srvs (spec, w) h = elim (Bool-cases (conflicts srvs (mark spec []))) [
    | inl e ↦ rw e h
    | inr e ↦ rw e (
        Committed-distinct (spec ++ srvs) spec
          (commit_and_set v running srvs Operation.add_op (spec ++ srvs) (spec, w)) h
          (distinct-append spec srvs h (conflicts-distinct srvs (mark spec []) e)
            (Unmarked-Apart spec srvs (conflicts-Unmarked srvs (mark spec []) e)))
          (commit_and_set-Committed running srvs Operation.add_op (spec ++ srvs) (spec, w)))
  ]

  del-distinct :
      (running : Bool) (srvs : List Service) (st : State v)
      → distinct st.0 ≡ true
      → distinct (del v running srvs st).0.0 ≡ true
  unfolding del
  del-distinct running srvs (spec, w) h =
      let parts = partition (mark srvs []) spec in
      Committed-distinct parts.1 spec
        (commit_and_set v running parts.0 Operation.del_op parts.1 (spec, w)) h
        (distinct-partition (mark srvs []) spec h)
        (commit_and_set-Committed running parts.0 Operation.del_op parts.1 (spec, w))

  update-distinct :
      (running : Bool) (srvs : List Service) (st : State v)
      → distinct st.0 ≡ true
      → distinct (update v running srvs st).0.0 ≡ true
  unfolding update
  update-distinct running srvs (spec, w) h = elim (Bool-cases (conflicts srvs [])) [
    | inl e ↦ rw e h
    | inr e ↦ rw e (
        Committed-distinct srvs spec
          (commit_and_set v running srvs Operation.update_op srvs (spec, w)) h
          (conflicts-distinct srvs [] e)
          (commit_and_set-Committed running srvs Operation.update_op srvs (spec, w)))
  ]

  -- If the services of a pod have pairwise different keys (address, port and protocol), they
  -- still have after an addition, a deletion or an update with any list, in a running pod or not,
  -- whether the operation succeeds or not and whatever ipvsadm answers.
  pub services_stay_distinct :
      (running : Bool) (srvs : List Service) (st : State v)
      → distinct st.0 ≡ true
      → (distinct (add v running srvs st).0.0 ≡ true)
        × (distinct (del v running srvs st).0.0 ≡ true)
        × (distinct (update v running srvs st).0.0 ≡ true)
  services_stay_distinct running srvs st h = (
    add-distinct running srvs st h,
    del-distinct running srvs st h,
    update-distinct running srvs st h,
  )

  -- A deletion has one of two outcomes: no error, and the pod keeps exactly the services whose key
  -- is none of the given ones, in their order; or an error, and it keeps them all.
  pub del-Committed :
      (running : Bool) (srvs : List Service) (st : State v)
      → Committed (filter (λ s. not (has_key (key s) srvs)) st.0) st.0 (del v running srvs st)
  unfolding del
  del-Committed running srvs (spec, w) =
      let parts = partition (mark srvs []) spec in
      subst
        (λ l.
          Committed l spec (commit_and_set v running parts.0 Operation.del_op parts.1 (spec, w)))
        (ap (λ r. r.1) (partition-filter (mark srvs []) spec) ∙ same spec)
        (commit_and_set-Committed running parts.0 Operation.del_op parts.1 (spec, w))
    where
      same :
          (ss : List Service)
          → filter (λ s. not (holds (key s) (mark srvs []))) ss
            ≡ filter (λ s. not (has_key (key s) srvs)) ss
      same [] = refl
      same (s ∷ ss) = ground (arith, same ss, holds-mark_nil (key s) srvs)
