-- ===== src/PodSpec/Soundness.antt =====
-- types/validate.go: what a spec that passes the checks is like, said without the checks.
use hyperd.Prelude.{
  ℕ, ◌+◌, ◌≤◌, ◌≡◌, ◌≢◌, refl, ap, arith, ◌⊎◌, inl, inr, Bool, true, false, ◌||◌, Bool-cases, none,
  List, [], ◌∷◌, ◌++◌, map, All, ◌==◌, ==_iff, ok,
}
use hyperd.Prelude.Text.{Text, text_eq, codes}
use hyperd.PodSpec.{
  PodSpec, ContainerSpec, VolumeRef, FileRef, all, member, service_key, one_gateway, octal_perm,
  octal_prefix, volume_known, has_detail, volume_names, file_names, empty_or, volume_drivers,
  volume_caches, validate,
}
use hyperd.PodSpec.Validation.{
  IsValidContainer, IsValidFile, AllDistinct, sources, validate-IsValid,
}

-- The text is one of the list.
abbrev pub Among : Text → List Text → Type 0
Among t [] = true ≡ false
Among t (k ∷ ks) = (t ≡ k) ⊎ Among t ks

-- The number of interfaces with a gateway.
abbrev pub gateways : List Text → ℕ
gateways [] = 0
gateways ([] ∷ gs) = gateways gs
gateways ((c ∷ g) ∷ gs) = 1 + gateways gs

abbrev pub IsOctal : ℕ → Type 0
IsOctal c = (b'0' ≤ c) × (c ≤ b'7')

-- There is a zero with three octal digits after it in the text.
abbrev pub HasOctal : Text → Type 0
HasOctal t =
    (before : Text) × (a : ℕ) × (b : ℕ) × (c : ℕ) × (after : Text) × (t
      ≡ before ++ b'0' ∷ a ∷ b ∷ c ∷ after)
    × IsOctal a
    × IsOctal b
    × IsOctal c

-- A file that is one of the pod's, with a permission.
abbrev pub IsSoundFile : List Text → FileRef → Type 0
IsSoundFile files f = Among f.filename files × ((f.perm ≡ codes "0") ⊎ HasOctal f.perm)

abbrev pub IsCache : Text → Type 0
IsCache t =
    (t ≡ [])
    ⊎ Among t (
        codes "off"
        ∷ codes "none"
        ∷ codes "directsync"
        ∷ codes "writeback"
        ∷ codes "unsafe"
        ∷ codes "writethrough"
        ∷ [])

abbrev pub IsDriver : Text → Type 0
IsDriver t =
    (t ≡ [])
    ⊎ Among t
        (codes "raw" ∷ codes "qcow2" ∷ codes "vdi" ∷ codes "vfs" ∷ codes "rbd" ∷ codes "nas" ∷ [])

pub record IsSoundContainer (volumes files : List Text) (c : ContainerSpec) : Type 0 where
  pub sources_differ : AllDistinct (sources c)
  pub envs_differ : AllDistinct c.envs
  pub volumes_known : All (λ v. Among v.volume volumes ⊎ (v.detail ≢ none)) c.volumes
  pub files_sound : All (IsSoundFile files) c.files
  pub cache_known : IsCache c.cache

pub record IsSound (is_ip : Text → Bool) (p : PodSpec) : Type 0 where
  pub gateway_once : gateways p.interfaces ≤ 1
  pub volumes_differ : AllDistinct (volume_names p)
  pub files_differ : AllDistinct (file_names p)
  pub services_differ : AllDistinct (map service_key p.services)
  pub containers_sound : All (IsSoundContainer (volume_names p) (file_names p)) p.containers
  pub drivers_known : All (λ v. IsDriver v.format) p.volumes
  pub dns_are_addresses : All (λ d. is_ip d ≡ true) p.dns

no_gateway : (gs : List Text) → one_gateway true gs ≡ true → gateways gs ≡ 0
unfolding one_gateway
no_gateway [] h = refl
no_gateway ([] ∷ gs) h = no_gateway gs h
no_gateway ((c ∷ g) ∷ gs) h = absurd (ground (arith, h))

one_gateway-gateways : (gs : List Text) → one_gateway false gs ≡ true → gateways gs ≤ 1
unfolding one_gateway
one_gateway-gateways [] h = omega arith
one_gateway-gateways ([] ∷ gs) h = one_gateway-gateways gs h
one_gateway-gateways ((c ∷ g) ∷ gs) h = omega (arith, no_gateway gs h)

member-Among : (t : Text) (ks : List Text) → member t ks ≡ true → Among t ks
member-Among t [] h = absurd (ground (arith, h))
member-Among t (k ∷ ks) h = elim (Bool-cases (k == t)) [
  | inl e ↦ inl (ground (arith, e, ==_iff k t))
  | inr e ↦ inr (member-Among t ks (ground (arith, e, h)))
]

empty_or-Among : (ks : List Text) (t : Text) → empty_or ks t ≡ true → (t ≡ []) ⊎ Among t ks
empty_or-Among ks [] h = inl refl
empty_or-Among ks (c ∷ t) h = inr (member-Among (c ∷ t) ks h)

all-All {ℓ κ} :
    {A : Type ℓ} (f : A → Bool) (Q : A → Type κ)
    → ((x : A) → f x ≡ true → Q x)
    → (xs : List A) → all f xs ≡ true
    → All Q xs
all-All f Q one [] h = tt
all-All f Q one (x ∷ xs) h = (one x (ground (arith, h)), all-All f Q one xs (ground (arith, h)))

All-map {ℓ κ ν} :
    {A : Type ℓ} (P : A → Type κ) (Q : A → Type ν)
    → ((x : A) → P x → Q x)
    → (xs : List A) → All P xs
    → All Q xs
All-map P Q one [] h = tt
All-map P Q one (x ∷ xs) h = (one x h.0, All-map P Q one xs h.1)

octal_prefix-HasOctal : (t : Text) → octal_prefix t ≡ true → HasOctal t
octal_prefix-HasOctal [] h = absurd (ground (arith, h))
octal_prefix-HasOctal (z ∷ []) h = absurd (ground (arith, h))
octal_prefix-HasOctal (z ∷ a ∷ []) h = absurd (ground (arith, h))
octal_prefix-HasOctal (z ∷ a ∷ b ∷ []) h = absurd (ground (arith, h))
octal_prefix-HasOctal (z ∷ a ∷ b ∷ c ∷ t) h = (
  [],
  a,
  b,
  c,
  t,
  ground (arith, h),
  (ground (arith, h), ground (arith, h)),
  (ground (arith, h), ground (arith, h)),
  (ground (arith, h), ground (arith, h)),
)

octal_perm-HasOctal : (t : Text) → octal_perm t ≡ true → HasOctal t
octal_perm-HasOctal [] h = absurd (ground (arith, h))
octal_perm-HasOctal (z ∷ t) h = elim (Bool-cases (octal_prefix (z ∷ t))) [
  | inl e ↦ octal_prefix-HasOctal (z ∷ t) e
  | inr e ↦
      let (before, a, b, c, after, same, x, y, w) = octal_perm-HasOctal t (rest z t e h) in
      (z ∷ before, a, b, c, after, ap (λ u. z ∷ u) same, x, y, w)
]
  where
    rest :
        (z : ℕ) (t : Text)
        → octal_prefix (z ∷ t) ≡ false
        → (octal_prefix (z ∷ t) || octal_perm t) ≡ true
        → octal_perm t ≡ true
    rest z t e h = ground (arith, e, h)

sound_file : (files : List Text) (f : FileRef) → IsValidFile files f → IsSoundFile files f
sound_file files f (m, _, o) = (
  member-Among f.filename files m,
  elim (Bool-cases (f.perm == codes "0")) [
    | inl e ↦ inl (ground (arith, e, ==_iff f.perm (codes "0")))
    | inr e ↦ inr (octal_perm-HasOctal f.perm (ground (arith, e, o)))
  ],
)

sound_volume :
    (volumes : List Text) (v : VolumeRef)
    → volume_known volumes v ≡ true
    → Among v.volume volumes ⊎ (v.detail ≢ none)
sound_volume volumes v h = elim (Bool-cases (member v.volume volumes)) [
  | inl e ↦ inl (member-Among v.volume volumes e)
  | inr e ↦ inr (detailed v (ground (arith, e, h)))
]
  where
    detailed : (v : VolumeRef) → has_detail v ≡ true → v.detail ≢ none
    detailed v h e = ground (arith, h, e)

sound_container :
    (volumes files : List Text) (c : ContainerSpec)
    → IsValidContainer volumes files c
    → IsSoundContainer volumes files c
sound_container volumes files c v = record {
  sources_differ = v.sources_differ;
  envs_differ = v.envs_differ;
  volumes_known =
      all-All (volume_known volumes) (λ r. Among r.volume volumes ⊎ (r.detail ≢ none))
        (sound_volume volumes) c.volumes v.volumes_known;
  files_sound =
      All-map (IsValidFile files) (IsSoundFile files) (sound_file files) c.files v.files_valid;
  cache_known = empty_or-Among volume_caches c.cache v.cache_known;
}

-- A spec that passes the checks has at most one interface with a gateway, different names of
-- volumes, files and services, and no driver of a volume but the known ones and the empty one; its
-- DNS servers are addresses. In each container the volume sources and the environment names differ,
-- each volume is one of the pod's or comes with its detail, the cache mode is a known one or empty,
-- and each file is one of the pod's, with the permission "0" or one that has a zero with three octal
-- digits after it. Checking the spec again changes nothing.
pub validate-IsSound :
    (is_ip : Text → Bool) (p q : PodSpec)
    → validate is_ip p ≡ ok q
    → IsSound is_ip q × (validate is_ip q ≡ ok q)
validate-IsSound is_ip p q h =
    let (v, again) = validate-IsValid is_ip p q h in
    (
      record {
        gateway_once = one_gateway-gateways q.interfaces v.one_gateway_at_most;
        volumes_differ = v.volumes_differ;
        files_differ = v.files_differ;
        services_differ = v.services_differ;
        containers_sound =
            All-map (IsValidContainer (volume_names q) (file_names q))
              (IsSoundContainer (volume_names q) (file_names q))
              (sound_container (volume_names q) (file_names q)) q.containers v.containers_valid;
        drivers_known =
            all-All (λ w. empty_or volume_drivers w.format) (λ w. IsDriver w.format)
              (λ w. empty_or-Among volume_drivers w.format) q.volumes v.drivers_known;
        dns_are_addresses =
            all-All is_ip (λ d. is_ip d ≡ true) (λ d e. e) q.dns v.dns_are_addresses;
      },
      again,
    )
