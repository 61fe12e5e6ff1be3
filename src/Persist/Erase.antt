-- ===== src/Persist/Erase.antt =====
-- daemon/pod/persist.go: removeFromDB, which removes the messages of a pod from the database.
-- Whether the database carries out a removal is the parameter `removes`. An interface is removed
-- by the id of its description: `descripts` gives it by the id of the interface's spec, and none
-- where the description is nil, which it is until the interface is prepared.
use hyperd.Prelude.{
  ◌≡◌, refl, arith, ◌⊎◌, inl, inr, Bool, true, false, Bool-cases, Option, none, some, List, [], ◌∷◌,
  ◌++◌, map, All, lookup, delete, lookup-delete, ◌==◌, ==_iff, any, if◌then◌else◌, subst, sym,
}
use hyperd.Prelude.Text.{Text, text_eq}
use hyperd.Persist.{
  Database, PodRecord, layout_key, sandbox_key, spec_key, meta_key, port_mappings_key,
  container_key, volume_key, interface_key, names,
}

-- How removeFromDB ends: without an error, with an error of the database, or with a panic at a
-- description that is nil.
pub data Ending : Type 0 where
  removed refused panics : Ending

-- removeMessage on each of the keys up to the first that the database refuses, or that cannot be
-- made.
unfoldable pub remove_all : (Text → Bool) → List (Option Text) → Database → Database × Ending
remove_all removes [] db = (db, removed)
remove_all removes (none ∷ ks) db = (db, panics)
remove_all removes (some k ∷ ks) db =
    let rest = remove_all removes ks (delete k db) in if removes k then rest else (db, refused)

-- inf.removeFromDB, the key
abbrev pub described_key : Text → Option Text → Option Text
described_key pod none = none
described_key pod (some id) = some (interface_key pod id)

-- The keys that are removed after those of the interfaces, in their order.
unfoldable pub later_keys : PodRecord → List Text
later_keys p =
    map (volume_key p.id) (names p.volumes)
    ++ (map container_key (names p.containers)
        ++ (meta_key p.id ∷ port_mappings_key p.id ∷ sandbox_key p.id ∷ spec_key p.id ∷ []))

-- removeFromDB
unfoldable pub remove_from_db :
    (Text → Bool) → (Text → Option Text) → PodRecord → Database → Database × Ending
unfolding remove_all later_keys
remove_from_db removes descripts p db =
    remove_all removes
      (some (layout_key p.id)
        ∷ (map (λ i. described_key p.id (descripts i)) (names p.interfaces)
            ++ map some (later_keys p)))
      db

-- The keys of the pod's messages.
abbrev pub pod_keys : PodRecord → List Text
pod_keys p =
    (layout_key p.id ∷ []) ++ (map (interface_key p.id) (names p.interfaces) ++ later_keys p)

-- Is the key one of the list?
abbrev pub within : Text → List Text → Bool
within j ks = any (λ k. k == j) ks

-- The description of an interface is nil, or has the id of the interface's spec.
abbrev pub Described : (Text → Option Text) → Text → Type 0
Described descripts i = (descripts i ≡ none) ⊎ (descripts i ≡ some i)

-- How a removal ends, for a key `j`: all of the interfaces `is` are described and the keys `ks` are
-- gone, the database has refused a key, or an interface is not described and nothing but the keys
-- `first` is gone.
abbrev pub Removed :
    (Text → Bool)
    → (Text → Option Text)
    → List Text
    → List Text
    → List Text
    → Database
    → Text
    → Database × Ending
    → Type 0
Removed removes descripts is first ks db j r =
    ((r.1 ≡ removed)
      × All (λ i. descripts i ≡ some i) is
      × (lookup j r.0 ≡ (if within j ks then none else lookup j db)))
    ⊎ ((r.1 ≡ refused) × (k : Text) × (removes k ≡ false))
    ⊎ ((r.1 ≡ panics)
        × ((i : Text) × (descripts i ≡ none) × (within i is ≡ true))
        × (within j first ≡ false → lookup j r.0 ≡ lookup j db))

-- One key that is removed before the others.
pub remove_first :
    (removes : Text → Bool) (descripts : Text → Option Text) (is is' first ks : List Text)
    (k : Text) (os : List (Option Text)) (db : Database) (j : Text)
    → (All (λ i. descripts i ≡ some i) is → All (λ i. descripts i ≡ some i) is')
    → ((i : Text) → within i is ≡ true → within i is' ≡ true)
    → Removed removes descripts is first ks (delete k db) j (remove_all removes os (delete k db))
    → Removed removes descripts is' (k ∷ first) (k ∷ ks) db j (remove_all removes (some k ∷ os) db)
unfolding remove_all
remove_first removes descripts is is' first ks k os db j all one h = elim (Bool-cases (removes k)) [
  | inr denied ↦ inr (inl (rw denied refl, k, denied))
  | inl carried ↦ elim h [
    | inl (e, a, l) ↦
        inl (rw carried e, all a, rw carried (ground (arith, l, lookup-delete k j db)))
    | inr (inl (e, l, x)) ↦ inr (inl (rw carried e, l, x))
    | inr (inr (e, (i, n, w), l)) ↦ inr (
        inr (
          rw carried e,
          (i, n, one i w),
          λ f. rw carried (ground (arith, f, l, lookup-delete k j db)),
        ))
  ]
]

-- Without interfaces there is no panic.
none_left :
    (removes : Text → Bool) (descripts : Text → Option Text) (first first' ks : List Text)
    (db : Database) (j : Text) (r : Database × Ending)
    → Removed removes descripts [] first ks db j r
    → Removed removes descripts [] first' ks db j r
none_left removes descripts first first' ks db j r (inl x) = inl x
none_left removes descripts first first' ks db j r (inr (inl x)) = inr (inl x)
none_left removes descripts first first' ks db j r (inr (inr (e, (i, n, w), l))) =
    absurd (ground (arith, w))

remove_later :
    (removes : Text → Bool) (descripts : Text → Option Text) (ks : List Text) (db : Database)
    (j : Text)
    → Removed removes descripts [] [] ks db j (remove_all removes (map some ks) db)
unfolding remove_all
remove_later removes descripts [] db j = inl (refl, tt, refl)
remove_later removes descripts (k ∷ ks) db j =
    none_left removes descripts (k ∷ []) [] (k ∷ ks) db j _ (
      remove_first removes descripts [] [] [] ks k (map some ks) db j (λ a. a) (λ i w. w)
        (remove_later removes descripts ks (delete k db) j))

pub remove_interfaces :
    (removes : Text → Bool) (descripts : Text → Option Text) (pod : Text) (is ks : List Text)
    (db : Database) (j : Text)
    → All (Described descripts) is
    → Removed removes descripts is
        (map (interface_key pod) is)
        (map (interface_key pod) is ++ ks)
        db
        j
        (remove_all removes (map (λ i. described_key pod (descripts i)) is ++ map some ks) db)
unfolding remove_all
remove_interfaces removes descripts pod [] ks db j d = remove_later removes descripts ks db j
remove_interfaces removes descripts pod (i ∷ is) ks db j (inl n, ds) =
    inr (inr (rw n refl, (i, n, ground (arith, ==_iff i i)), λ f. rw n refl))
remove_interfaces removes descripts pod (i ∷ is) ks db j (inr n, ds) =
    let os = map (λ i. described_key pod (descripts i)) is ++ map some ks in
    subst
      (λ (o : Option Text).
        Removed removes descripts (i ∷ is) (map (interface_key pod) (i ∷ is))
          (map (interface_key pod) (i ∷ is) ++ ks) db j
          (remove_all removes (described_key pod o ∷ os) db))
      (sym n)
      (remove_first removes descripts is (i ∷ is) (map (interface_key pod) is)
        (map (interface_key pod) is ++ ks) (interface_key pod i) os db j (λ a. (n, a))
        (λ x w. ground (arith, w))
        (remove_interfaces removes descripts pod is ks (delete (interface_key pod i) db) j ds))
