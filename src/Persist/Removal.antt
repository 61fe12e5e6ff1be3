-- ===== src/Persist/Removal.antt =====
-- daemon/pod/persist.go, decommission.go: what RemoveContainer leaves in the database.
use hyperd.Prelude.{
  Option, some, Bool, false, insert, ◌≡◌, refl, ap, ◌∙◌, inl, inr, arith, true, none, List, [], ◌∷◌,
  lookup, delete, lookup-insert, lookup-delete, ◌==◌, ==_iff, if◌then◌else◌, any, Result, ok, err,
  ◌>>=◌, Bool-cases,
}
use hyperd.Prelude.Text.{Text, text_eq}
use hyperd.Persist.{
  info, sandbox_key, Database, PodRecord, Error, not_found, layout_key, container_key, volume_key,
  names, layout_of, load_info, load_each, load_pod, remove_volumes, remove_container,
}
use hyperd.Persist.Stored.{volume_key-Faithful}

-- A volume of the pod is removed if it is among those to be removed.
lookup-remove_volumes :
    (p : PodRecord) (v : Text) (vs : List Text) (db : Database)
    → any (λ w. w == v) (names p.volumes) ≡ true
    → lookup (volume_key p.id v) (remove_volumes p vs db)
      ≡ (if any (λ w. w == v) vs then none else lookup (volume_key p.id v) db)
unfolding remove_volumes
lookup-remove_volumes p v [] db named = refl
lookup-remove_volumes p v (w ∷ vs) db named = ground (
  arith,
  lookup-remove_volumes p v vs
      (if any (λ x. x == w) (names p.volumes) then delete (volume_key p.id w) db else db) named,
  lookup-delete (volume_key p.id w) (volume_key p.id v) db,
  volume_key-Faithful p.id w v,
  is_named (w == v) refl,
)
  where
    is_named :
        (b : Bool)
        → (w == v) ≡ b
        → if b then any (λ x. x == w) (names p.volumes) ≡ true else Unit {0}
    is_named true e = ap (λ u. any (λ x. x == u) (names p.volumes)) ((==_iff w v).0 e) ∙ named
    is_named false e = tt

abbrev pub IsErr {ℓ} : {A : Type ℓ} → Result Error A → Type ℓ
IsErr r = (e : Error) × (r ≡ err e)

bind-IsErr {ℓ κ} :
    {A : Type ℓ} {B : Type κ} (r : Result Error A) (k : A → Result Error B)
    → IsErr r
    → IsErr (r >>= k)
bind-IsErr (ok a) k (e, h) = absurd (ground arith)
bind-IsErr (err x) k h = (x, refl)

bind-IsErr_rest {ℓ κ} :
    {A : Type ℓ} {B : Type κ} (r : Result Error A) (k : A → Result Error B)
    → ((a : A) → IsErr (k a))
    → IsErr (r >>= k)
bind-IsErr_rest (ok a) k h = h a
bind-IsErr_rest (err x) k h = (x, refl)

load_info-missing : (key : Text) (db : Database) → lookup key db ≡ none → IsErr (load_info key db)
unfolding load_info
load_info-missing key db h = (not_found, rw (h, load_info) refl)

load_each-missing :
    (key : Text → Text) (v : Text) (ks : List Text) (db : Database)
    → lookup (key v) db ≡ none
    → any (λ k. k == v) ks ≡ true
    → IsErr (load_each key ks db)
unfolding load_each
load_each-missing key v [] db h a = absurd (ground arith)
load_each-missing key v (k ∷ ks) db h a = elim (Bool-cases (k == v)) [
  | inl e ↦
      bind-IsErr (load_info (key k) db) _
        (load_info-missing (key k) db (ap (λ j. lookup (key j) db) ((==_iff k v).0 e) ∙ h))
  | inr e ↦ bind-IsErr_rest (load_info (key k) db) _ (λ x.
      bind-IsErr (load_each key ks db) _ (load_each-missing key v ks db h (ground (arith, e))))
]

lookup-sandbox :
    (o : Option Text) (pod v : Text) (db : Database)
    → lookup
        (volume_key pod v)
        (elim o [ none ↦ db | some s ↦ insert (sandbox_key pod) (info s) db ])
      ≡ lookup (volume_key pod v) db
lookup-sandbox none pod v db = refl
lookup-sandbox (some s) pod v db = lookup-insert (sandbox_key pod) (volume_key pod v) (info s) db

lookup-remove_container :
    (p : PodRecord) (id v : Text) (unplugged : List Text) (db : Database)
    → any (λ w. w == v) unplugged ≡ true
    → any (λ w. w == v) (names p.volumes) ≡ true
    → lookup (volume_key p.id v) (remove_container p id unplugged db).1 ≡ none
unfolding remove_container
lookup-remove_container p id v unplugged db gone named =
    let removed = remove_volumes p unplugged db in
    lookup-sandbox p.sandbox p.id v _
    ∙ lookup-insert (layout_key p.id) (volume_key p.id v) _ (delete (container_key id) removed)
    ∙ lookup-delete (container_key id) (volume_key p.id v) removed
    ∙ lookup-remove_volumes p v unplugged db named
    ∙ ground (arith, gone)

-- If a volume of the pod has been unplugged with the container, then what RemoveContainer leaves in
-- the database cannot be loaded: the layout that it saves still names the volume, whose message it
-- has removed, and loading the pod by this layout is an error.
pub remove_container-unloadable :
    (p : PodRecord) (id v : Text) (unplugged : List Text) (db : Database)
    → any (λ w. w == v) unplugged ≡ true
    → any (λ w. w == v) (names p.volumes) ≡ true
    → IsErr (
        load_pod
          (layout_of (remove_container p id unplugged db).0)
          (remove_container p id unplugged db).1)
unfolding remove_container load_pod
remove_container-unloadable p id v unplugged db gone named =
    bind-IsErr_rest (load_info _ _) _ (λ spec. bind-IsErr_rest (load_each _ _ _) _ (λ interfaces.
      bind-IsErr (load_each (volume_key p.id) (names p.volumes) _) _ (
        load_each-missing (volume_key p.id) v (names p.volumes) _
          (lookup-remove_container p id v unplugged db gone named) named)))
