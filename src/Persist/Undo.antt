-- ===== src/Persist/Undo.antt =====
-- daemon/pod/persist.go: what removeFromDB leaves of a pod that savePod has saved.
use hyperd.Prelude.{
  ◌≡◌, refl, ap, ◌∙◌, arith, ◌⊎◌, inl, inr, Bool, true, false, Option, none, some, List, [], ◌∷◌,
  ◌++◌, map, All, Dict, lookup, insert, delete, lookup-insert, ◌==◌, any, if◌then◌else◌,
}
use hyperd.Prelude.Text.{Text, text_eq}
use hyperd.Persist.{
  Message, Database, PodRecord, layout_key, sandbox_key, spec_key, meta_key, port_mappings_key,
  container_key, volume_key, interface_key, names, entries, sandbox_entry, messages, save_all,
  save_pod,
}
use hyperd.Persist.Erase.{
  Ending, removed, refused, panics, described_key, later_keys, remove_from_db, pod_keys, within,
  Described, remove_first, remove_interfaces,
}

save_all_other :
    (accepts : Text → Bool) (es : List (Text × Message)) (db : Database) (j : Text)
    → any (λ e. e.0 == j) es ≡ false
    → lookup j (save_all accepts es db).0 ≡ lookup j db
unfolding save_all
save_all_other accepts [] db j h = refl
save_all_other accepts ((k, m) ∷ es) db j h =
    ground (arith, h, save_all_other accepts es (insert k m db) j, lookup-insert k j m db)

none_append {ℓ} :
    {A : Type ℓ} (f : A → Bool) (xs ys : List A)
    → any f xs ≡ false
    → any f ys ≡ false
    → any f (xs ++ ys) ≡ false
none_append f [] ys h k = k
none_append f (x ∷ xs) ys h k = ground (arith, h, k, none_append f xs ys)

append-none {ℓ} :
    {A : Type ℓ} (f : A → Bool) (xs ys : List A)
    → any f (xs ++ ys) ≡ false
    → (any f xs ≡ false) × (any f ys ≡ false)
append-none f [] ys h = (refl, h)
append-none f (x ∷ xs) ys h = ground (arith, h, append-none f xs ys)

any-entries :
    (key : Text → Text) (m : Dict Text Text) (j : Text)
    → any (λ e. e.0 == j) (entries key m) ≡ within j (map key (names m))
any-entries key [] j = refl
any-entries key ((k, v) ∷ m) j = ap (λ b. if key k == j then true else b) (any-entries key m j)

any-sandbox :
    (p : PodRecord) (j : Text)
    → (sandbox_key p.id == j) ≡ false
    → any (λ e. e.0 == j) (sandbox_entry p) ≡ false
any-sandbox p j h = of_sandbox p.sandbox
  where
    of_sandbox :
        (o : Option Text)
        → any
            (λ (e : Text × Message). e.0 == j)
            (elim o [ none ↦ [] | some s ↦ (sandbox_key p.id, Message.info s) ∷ [] ])
          ≡ false
    of_sandbox none = refl
    of_sandbox (some s) = rw h refl

-- What the pod saves is under keys that it removes.
messages_other :
    (p : PodRecord) (j : Text)
    → within j (pod_keys p) ≡ false
    → any (λ e. e.0 == j) (messages p) ≡ false
unfolding messages later_keys
messages_other p j h =
    let (at_layout, h1) = append-none (λ k. k == j) (layout_key p.id ∷ []) _ h in
    let (at_interfaces, h2) =
      append-none (λ k. k == j) (map (interface_key p.id) (names p.interfaces)) _ h1 in
    let (at_volumes, h3) =
      append-none (λ k. k == j) (map (volume_key p.id) (names p.volumes)) _ h2 in
    let (at_containers, fixed) =
      append-none (λ k. k == j) (map container_key (names p.containers)) _ h3 in
    join ((spec_key p.id, Message.info p.spec) ∷ []) _ (ground (arith, fixed)) (
      join (sandbox_entry p) _ (any-sandbox p j (ground (arith, fixed))) (
        join
          ((meta_key p.id, Message.info p.meta)
            ∷ (port_mappings_key p.id, Message.info p.port_mappings)
            ∷ [])
          _ (ground (arith, fixed))
          (join (entries container_key p.containers) _
            (any-entries container_key p.containers j ∙ at_containers)
            (join (entries (volume_key p.id) p.volumes) _
              (any-entries (volume_key p.id) p.volumes j ∙ at_volumes)
              (join (entries (interface_key p.id) p.interfaces) _
                (any-entries (interface_key p.id) p.interfaces j ∙ at_interfaces)
                (ground (arith, at_layout)))))))
  where
    join :
        (es fs : List (Text × Message))
        → any (λ e. e.0 == j) es ≡ false
        → any (λ e. e.0 == j) fs ≡ false
        → any (λ e. e.0 == j) (es ++ fs) ≡ false
    join es fs = none_append (λ e. e.0 == j) es fs

-- How a removal ends, for a key `j`, of a pod saved in the database `db`, which has then become
-- `saved`.
abbrev pub Erased :
    (Text → Bool)
    → (Text → Option Text)
    → PodRecord
    → Database
    → Database
    → Text
    → Database × Ending
    → Type 0
Erased removes descripts p db saved j r =
    ((r.1 ≡ removed)
      × All (λ i. descripts i ≡ some i) (names p.interfaces)
      × (lookup j r.0 ≡ (if within j (pod_keys p) then none else lookup j db)))
    ⊎ ((r.1 ≡ refused) × (k : Text) × (removes k ≡ false))
    ⊎ ((r.1 ≡ panics)
        × ((i : Text) × (descripts i ≡ none) × (within i (names p.interfaces) ≡ true))
        × (within j (layout_key p.id ∷ map (interface_key p.id) (names p.interfaces)) ≡ false
            → lookup j r.0 ≡ lookup j saved))

-- How a saved pod, written wholly or up to a message that the database refused, is removed, where
-- the description of each of its interfaces is nil or has the id of the interface's spec. Without an
-- error, all interfaces have a description, none of the pod's messages is left, and what is kept
-- under every other key is what was there before the pod was saved. Otherwise the database has
-- refused a removal; or an interface has no description, and the removal has panicked, with all
-- messages left but those of the layout and of interfaces.
pub remove_from_db-save_pod :
    (accepts removes : Text → Bool) (descripts : Text → Option Text) (p : PodRecord) (db : Database)
    (j : Text)
    → All (Described descripts) (names p.interfaces)
    → Erased removes descripts p db
        (save_pod accepts p db).0
        j
        (remove_from_db removes descripts p (save_pod accepts p db).0)
unfolding remove_from_db save_pod
remove_from_db-save_pod accepts removes descripts p db j d =
    let before = (save_all accepts (messages p) db).0 in
    let first =
      remove_first removes descripts (names p.interfaces) (names p.interfaces)
        (map (interface_key p.id) (names p.interfaces))
        (map (interface_key p.id) (names p.interfaces) ++ later_keys p) (layout_key p.id)
        (map (λ i. described_key p.id (descripts i)) (names p.interfaces)
          ++ map some (later_keys p))
        before j (λ a. a) (λ i w. w)
        (remove_interfaces removes descripts p.id (names p.interfaces) (later_keys p)
          (delete (layout_key p.id) before) j d) in
    elim first [
      | inl (e, a, l) ↦
          inl
            (e, a, l ∙ ground (arith, messages_other p j, save_all_other accepts (messages p) db j))
      | inr (inl x) ↦ inr (inl x)
      | inr (inr x) ↦ inr (inr x)
    ]
