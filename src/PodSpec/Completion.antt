-- ===== src/PodSpec/Completion.antt =====
-- types/utils.go: ReorganizeContainers completes a spec that has passed the checks.
use hyperd.Prelude.{
  ℕ, suc, zero, ◌+◌, ◌≤◌, ◌≡◌, ◌≢◌, refl, inl, inr, arith, Bool, true, false, Option, none, some,
  List, [], ◌∷◌, ◌++◌, map, All, length, ◌==◌, if◌then◌else◌, Result, ok, err, ◌>>=◌, Bool-cases,
  subst,
}
use hyperd.Prelude.Text.{Text, text_eq}
use hyperd.PodSpec.{
  PodSpec, VolumeSpec, FileSpec, ContainerSpec, VolumeRef, FileRef, Error, no_such_file,
  no_such_volume, is_nil, all, member, has_detail, volume_known, volume_names, file_names, validate,
  volume_named, file_named, or_this, complete_volume, complete_file, complete_refs,
  complete_container, complete_containers, first_bytes, reorganize_containers, default_name,
}
use hyperd.PodSpec.Validation.{IsValidContainer, IsValidFile, validate-IsValid}

-- The result is a value with the property.
abbrev pub Succeeds {ℓ κ} : {A : Type ℓ} → (A → Type κ) → Result Error A → Type (ℓ ⊔ κ)
Succeeds {A = A} Q r = (a : A) × (r ≡ ok a) × Q a

bind-Succeeds {ℓ κ ν μ} :
    {A : Type ℓ} {B : Type κ} (R : A → Type ν) (Q : B → Type μ) (r : Result Error A)
    (k : A → Result Error B)
    → Succeeds R r
    → ((x : A) → R x → Succeeds Q (k x))
    → Succeeds Q (r >>= k)
bind-Succeeds R Q (ok x) k (a, e, h) f = f x (subst R (ground (arith, e)) h)
bind-Succeeds R Q (err e) k (a, x, h) f = absurd (ground arith)

or_this-found {ℓ} : {A : Type ℓ} (o : Option A) (a : A) → (b : A) × (or_this o true a ≡ some b)
or_this-found (some b) a = (b, refl)
or_this-found none a = (a, refl)

volume_named-member :
    (n : Text) (vs : List VolumeSpec)
    → member n (map (λ v. v.name) vs) ≡ true
    → (v : VolumeSpec) × (volume_named n vs ≡ some v)
volume_named-member n [] h = absurd (ground arith)
volume_named-member n (v ∷ vs) h = elim (Bool-cases (v.name == n)) [
  | inl e ↦ rw e (or_this-found (volume_named n vs) v)
  | inr e ↦ let (w, f) = volume_named-member n vs (rw e at h) in (w, rw f refl)
]

file_named-member :
    (n : Text) (fs : List FileSpec)
    → member n (map (λ f. f.name) fs) ≡ true
    → (f : FileSpec) × (file_named n fs ≡ some f)
file_named-member n [] h = absurd (ground arith)
file_named-member n (f ∷ fs) h = elim (Bool-cases (f.name == n)) [
  | inl e ↦ rw e (or_this-found (file_named n fs) f)
  | inr e ↦ let (w, g) = file_named-member n fs (rw e at h) in (w, rw g refl)
]

-- The reference has its detail.
abbrev pub IsResolved : VolumeRef → Type 0
IsResolved v = has_detail v ≡ true

abbrev pub IsResolvedFile : FileRef → Type 0
IsResolvedFile f = f.detail ≢ none

-- Every reference is completed.
complete_refs-Succeeds {ℓ κ} :
    {A : Type ℓ} (D : A → Type κ) (allow_absent : Bool) (e : Error) (complete : A → Option A)
    (rs : List A)
    → All (λ r. (s : A) × (complete r ≡ some s) × D s) rs
    → Succeeds (All D) (complete_refs allow_absent e complete rs)
unfolding complete_refs
complete_refs-Succeeds D allow_absent e complete [] h = ([], refl, tt)
complete_refs-Succeeds D allow_absent e complete (r ∷ rs) ((s, c, d), h) =
    let (ss, f, ds) = complete_refs-Succeeds D allow_absent e complete rs h in
    (s ∷ ss, rw (c, f) refl, (d, ds))

complete_volume-named :
    (vs : List VolumeSpec) (v : VolumeRef) (d : VolumeSpec)
    → v.detail ≡ none
    → volume_named v.volume vs ≡ some d
    → complete_volume vs v ≡ some (record v { detail = some d })
complete_volume-named vs v d e f = ground (arith, e, f)

complete_file-named :
    (fs : List FileSpec) (f : FileRef) (d : FileSpec)
    → f.detail ≡ none
    → file_named f.filename fs ≡ some d
    → complete_file fs f ≡ some (record f { detail = some d })
complete_file-named fs f d e g = ground (arith, e, g)

complete_volume-found :
    (p : PodSpec) (v : VolumeRef)
    → volume_known (volume_names p) v ≡ true
    → (w : VolumeRef) × (complete_volume p.volumes v ≡ some w) × IsResolved w
complete_volume-found p v h = of_detail v.detail refl
  where
    of_detail :
        (o : Option VolumeSpec)
        → v.detail ≡ o
        → (w : VolumeRef) × (complete_volume p.volumes v ≡ some w) × IsResolved w
    of_detail (some d) e = (v, rw e refl, rw e refl)
    of_detail none e =
        let (d, f) = volume_named-member v.volume p.volumes (ground (arith, e)) in
        (record v { detail = some d }, complete_volume-named p.volumes v d e f, refl)

complete_file-found :
    (p : PodSpec) (f : FileRef)
    → IsValidFile (file_names p) f
    → (g : FileRef) × (complete_file p.files f ≡ some g) × IsResolvedFile g
complete_file-found p f h = of_detail f.detail refl
  where
    of_detail :
        (o : Option FileSpec)
        → f.detail ≡ o
        → (g : FileRef) × (complete_file p.files f ≡ some g) × IsResolvedFile g
    of_detail (some d) e = (f, rw e refl, λ x. ground arith)
    of_detail none e =
        let (d, x) = file_named-member f.filename p.files h.0 in
        (record f { detail = some d }, complete_file-named p.files f d e x, λ y. ground arith)

All-volumes :
    (p : PodSpec) (vs : List VolumeRef)
    → all (volume_known (volume_names p)) vs ≡ true
    → All (λ v. (w : VolumeRef) × (complete_volume p.volumes v ≡ some w) × IsResolved w) vs
All-volumes p [] h = tt
All-volumes p (v ∷ vs) h =
    (complete_volume-found p v (ground arith), All-volumes p vs (ground arith))

All-files :
    (p : PodSpec) (fs : List FileRef)
    → All (IsValidFile (file_names p)) fs
    → All (λ f. (g : FileRef) × (complete_file p.files f ≡ some g) × IsResolvedFile g) fs
All-files p [] h = tt
All-files p (f ∷ fs) h = (complete_file-found p f h.0, All-files p fs h.1)

-- The container has a name, and all its references their details.
pub record IsComplete (c : ContainerSpec) : Type 0 where
  pub named : is_nil c.name ≡ false
  pub volumes_resolved : All IsResolved c.volumes
  pub files_resolved : All IsResolvedFile c.files

is_nil-append : (s t : Text) (c : ℕ) → is_nil (s ++ c ∷ t) ≡ false
is_nil-append [] t c = refl
is_nil-append (x ∷ s) t c = refl

name-nonempty :
    (p : PodSpec) (idx : ℕ) (c : ContainerSpec)
    → is_nil (if is_nil c.name then default_name p.id c.image idx else c.name) ≡ false
name-nonempty p idx c = elim (Bool-cases (is_nil c.name)) [
  | inl e ↦ rw e (is_nil-append p.id _ b'-')
  | inr e ↦ rw e e
]

complete_container-Succeeds :
    (allow_absent : Bool) (p : PodSpec) (idx : ℕ) (c : ContainerSpec)
    → IsValidContainer (volume_names p) (file_names p) c
    → Succeeds IsComplete (complete_container allow_absent p idx c)
unfolding complete_container
complete_container-Succeeds allow_absent p idx c v =
    bind-Succeeds (All IsResolved) IsComplete
      (complete_refs allow_absent no_such_volume (complete_volume p.volumes) c.volumes) _
      (complete_refs-Succeeds IsResolved allow_absent no_such_volume (complete_volume p.volumes)
        c.volumes (All-volumes p c.volumes v.volumes_known))
      (λ vs hv.
        bind-Succeeds (All IsResolvedFile) IsComplete
          (complete_refs allow_absent no_such_file (complete_file p.files) c.files) _
          (complete_refs-Succeeds IsResolvedFile allow_absent no_such_file (complete_file p.files)
            c.files (All-files p c.files v.files_valid))
          (λ fs hf. (
            _,
            refl,
            record { named = name-nonempty p idx c; volumes_resolved = hv; files_resolved = hf },
          )))

complete_containers-Succeeds :
    (allow_absent : Bool) (p : PodSpec) (idx : ℕ) (cs : List ContainerSpec)
    → All (IsValidContainer (volume_names p) (file_names p)) cs
    → Succeeds (All IsComplete) (complete_containers allow_absent p idx cs)
unfolding complete_containers
complete_containers-Succeeds allow_absent p idx [] h = ([], refl, tt)
complete_containers-Succeeds allow_absent p idx (c ∷ cs) h =
    bind-Succeeds IsComplete (All IsComplete) (complete_container allow_absent p idx c) _
      (complete_container-Succeeds allow_absent p idx c h.0)
      (λ d hd.
        bind-Succeeds (All IsComplete) (All IsComplete)
          (complete_containers allow_absent p (idx + 1) cs) _
          (complete_containers-Succeeds allow_absent p (idx + 1) cs h.1)
          (λ ds hds. (d ∷ ds, refl, (hd, hds))))

length-first_bytes : (n : ℕ) (t : Text) → length (first_bytes n t) ≤ n
length-first_bytes zero t = omega arith
length-first_bytes (suc n) [] = omega arith
length-first_bytes (suc n) (c ∷ t) = omega (arith, length-first_bytes n t)

-- A spec that has passed the checks is always completed, also if absent references are not
-- allowed: each container gets a name if it has none, every reference to a volume or a file has
-- its detail, and the host name has at most 63 bytes.
pub reorganize_containers-validate :
    (is_ip : Text → Bool) (allow_absent : Bool) (p q : PodSpec)
    → validate is_ip p ≡ ok q
    → (r : PodSpec) × (reorganize_containers allow_absent q ≡ ok r)
      × All IsComplete r.containers
      × (length r.hostname ≤ 63)
unfolding reorganize_containers
reorganize_containers-validate is_ip allow_absent p q h =
    let (cs, e, hc) =
      complete_containers-Succeeds allow_absent q 0 q.containers
        ((validate-IsValid is_ip p q h).0.containers_valid) in
    (
      record q {
        hostname = first_bytes 63 (if is_nil q.hostname then q.id else q.hostname);
        containers = cs;
      },
      rw (e, reorganize_containers) refl,
      hc,
      length-first_bytes 63 (if is_nil q.hostname then q.id else q.hostname),
    )
