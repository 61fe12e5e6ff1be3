-- ===== src/Creation/Mounts.antt =====
-- daemon/pod/container.go: parseVolumes groups the references of a container by their volume.
use hyperd.Prelude.{
  ◌≡◌, inl, inr, refl, ap, ◌∙◌, Bool, Bool-cases, Option, none, some, List, [], ◌∷◌, ◌++◌, Dict,
  lookup, insert, lookup-insert, append_assoc, ◌==◌, ==_iff, if◌then◌else◌,
}
use hyperd.Prelude.Text.{Text, text_eq}
use hyperd.Creation.Spec.{UserVolumeReference, VolumeReference}
use hyperd.Creation.Volumes.{mount_point, add_mount, parse_loop, parse_volumes}

-- The mount points of the references to a volume, in their order.
abbrev pub mounts_of : Text → List UserVolumeReference → List (Text × Bool)
mounts_of n [] = []
mounts_of n (v ∷ vs) =
    let rest = mounts_of n vs in if v.volume == n then mount_point v ∷ rest else rest

-- A reference with more mount points; without a reference before, one for the volume of the name.
abbrev pub extended : Text → Option VolumeReference → List (Text × Bool) → Option VolumeReference
extended n o [] = o
extended n none (m ∷ ms) = some (record { name = n; mount_points = m ∷ ms })
extended n (some r) (m ∷ ms) = some (record r { mount_points = r.mount_points ++ (m ∷ ms) })

extended-add_mount :
    (n : Text) (v : UserVolumeReference) (o : Option VolumeReference) (ms : List (Text × Bool))
    → v.volume ≡ n
    → extended n (some (add_mount v o)) ms ≡ extended n o (mount_point v ∷ ms)
extended-add_mount n v none [] e =
    ap (λ t. some (record { name = t; mount_points = mount_point v ∷ [] })) e
extended-add_mount n v none (m ∷ ms) e =
    ap (λ t. some (record { name = t; mount_points = mount_point v ∷ m ∷ ms })) e
extended-add_mount n v (some r) [] e = refl
extended-add_mount n v (some r) (m ∷ ms) e =
    ap (λ t. some (record r { mount_points = t }))
      (append_assoc r.mount_points (mount_point v ∷ []) (m ∷ ms))

lookup-parse_loop :
    (n : Text) (vs : List UserVolumeReference) (refs : Dict Text VolumeReference)
    → lookup n (parse_loop vs refs) ≡ extended n (lookup n refs) (mounts_of n vs)
unfolding parse_loop
lookup-parse_loop n [] refs = refl
lookup-parse_loop n (v ∷ vs) refs =
    lookup-parse_loop n vs (insert v.volume (add_mount v (lookup v.volume refs)) refs)
    ∙ ap (λ o. extended n o (mounts_of n vs))
        (lookup-insert v.volume n (add_mount v (lookup v.volume refs)) refs)
    ∙ elim (Bool-cases (v.volume == n)) [
      | inl e ↦
          let same = (==_iff v.volume n).0 e in
          rw e (
            extended-add_mount n v (lookup v.volume refs) (mounts_of n vs) same
            ∙ ap (λ k. extended n (lookup k refs) (mount_point v ∷ mounts_of n vs)) same)
      | inr e ↦ rw e refl
    ]

-- The description of a container has one reference for each volume that its spec refers to, with the
-- mount points of all the spec's references to it in their order, and none for other volumes.
pub lookup-parse_volumes :
    (n : Text) (vs : List UserVolumeReference)
    → lookup n (parse_volumes vs) ≡ extended n none (mounts_of n vs)
unfolding parse_volumes lookup
lookup-parse_volumes n vs = lookup-parse_loop n vs []
