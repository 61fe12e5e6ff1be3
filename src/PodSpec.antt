-- ===== src/PodSpec.antt =====
-- types/validate.go and types/utils.go: the checks on the spec of a pod, and ReorganizeContainers,
-- which completes it. Validate fills in permissions, so it returns the spec; on an error the spec
-- is not used any more. Whether net.ParseIP accepts an address is the parameter `is_ip`.
pub mod Validation
pub mod Soundness
pub mod Completion
use hyperd.Prelude.{
  ℕ, suc, zero, ◌+◌, Bool, true, false, not, ◌&&◌, ◌||◌, Option, none, some, List, [], ◌∷◌, ◌++◌,
  length, ltb, leb, any, map, nat_beq, ◌==◌, if◌then◌else◌, Result, ok, err, ◌>>=◌,
}
use hyperd.Prelude.Text.{Text, text_eq, codes}
use hyperd.Prelude.Int.{ℤ}
use hyperd.Prelude.Decimal.{itoa}
use hyperd.PortSpec.{to_lower}
use hyperd.Services.{Service, decimal}
use hyperd.Names.{is_dns_label, split, parse_image_repo_tag}

-- UserVolume
pub record VolumeSpec : Type 0 where
  pub name : Text
  pub format : Text
  pub cache : Text

-- UserVolumeReference; a reference whose detail is nil has none.
pub record VolumeRef : Type 0 where
  pub volume : Text
  pub detail : Option VolumeSpec

-- UserFile, as far as its name goes
pub record FileSpec : Type 0 where
  pub name : Text
  pub content : Text

-- UserFileReference
pub record FileRef : Type 0 where
  pub filename : Text
  pub perm : Text
  pub detail : Option FileSpec

-- UserContainer
pub record ContainerSpec : Type 0 where
  pub name : Text
  pub image : Text
  pub tty : Bool
  pub cache : Text
  pub envs : List Text
  pub volumes : List VolumeRef
  pub files : List FileRef

-- UserPod; of an interface, its gateway
pub record PodSpec : Type 0 where
  pub id : Text
  pub hostname : Text
  pub tty : Bool
  pub interfaces : List Text
  pub volumes : List VolumeSpec
  pub files : List FileSpec
  pub services : List Service
  pub containers : List ContainerSpec
  pub dns : List Text

pub data Error : Type 0 where
  hostname_too_long hostname_pattern two_gateways volumes_not_unique files_not_unique : Error
  services_not_unique references_not_unique envs_not_unique no_such_file bad_permission : Error
  no_such_volume bad_cache bad_driver bad_dns : Error

-- The guards: an error unless the test holds.
abbrev pub check : Bool → Error → Result Error (Unit {0})
check true e = ok tt
check false e = err e

abbrev pub is_nil {ℓ} : {A : Type ℓ} → List A → Bool
is_nil [] = true
is_nil (x ∷ xs) = false

abbrev pub all {ℓ} : {A : Type ℓ} → (A → Bool) → List A → Bool
all p [] = true
all p (x ∷ xs) = p x && all p xs

abbrev pub member : Text → List Text → Bool
member k ks = any (λ j. j == k) ks

-- keySet, as far as its first result goes: whether no key comes twice. The callers use the set
-- only if it is complete.
unfoldable pub unique_from : List Text → List Text → Bool
unique_from seen [] = true
unique_from seen (k ∷ ks) =
    let rest = unique_from (k ∷ seen) ks in if member k seen then false else rest

unfoldable pub key_set : List Text → Bool
unfolding unique_from
key_set keys = unique_from [] keys

-- The key of a UserService: `%s` prints the number of its port as `%!s(int32=80)`.
abbrev pub service_key : Service → Text
service_key s =
    s.service_ip
    ++ (codes ":%!s(int32=" ++ (decimal s.service_port ++ (codes ")@" ++ to_lower s.protocol)))

abbrev pub volume_drivers : List Text
volume_drivers =
    codes "raw" ∷ codes "qcow2" ∷ codes "vdi" ∷ codes "vfs" ∷ codes "rbd" ∷ codes "nas" ∷ []

abbrev pub volume_caches : List Text
volume_caches =
    codes "off"
    ∷ codes "none"
    ∷ codes "directsync"
    ∷ codes "writeback"
    ∷ codes "unsafe"
    ∷ codes "writethrough"
    ∷ []

-- Is the text empty, or one of the list?
abbrev pub empty_or : List Text → Text → Bool
empty_or allowed t = is_nil t || member t allowed

unfoldable pub valid_hostname : Text → Result Error (Unit {0})
unfolding is_dns_label
valid_hostname h = do
  _ ← check (leb (length h) 63) hostname_too_long
  check (is_nil h || all is_dns_label (split b'.' h)) hostname_pattern

-- The loop over the interfaces.
unfoldable pub one_gateway : Bool → List Text → Bool
one_gateway has_gw [] = true
one_gateway has_gw (g ∷ gs) =
    if is_nil g then one_gateway has_gw gs else if has_gw then false else one_gateway true gs

abbrev is_octal : ℕ → Bool
is_octal c = leb b'0' c && leb c b'7'

abbrev pub octal_prefix : Text → Bool
octal_prefix (z ∷ a ∷ b ∷ c ∷ cs) = nat_beq z b'0' && (is_octal a && (is_octal b && is_octal c))
octal_prefix _ = false

-- permReg.Match: `0[0-7]{3}` anywhere in the text
abbrev pub octal_perm : Text → Bool
octal_perm [] = false
octal_perm (c ∷ cs) = octal_prefix (c ∷ cs) || octal_perm cs

-- The loop over the files of a container, which fills in the permissions.
unfoldable pub valid_files : List Text → List FileRef → Result Error (List FileRef)
valid_files fset [] = ok []
valid_files fset (f ∷ fs) = do
  _ ← check (member f.filename fset) no_such_file
  let perm = if is_nil f.perm then codes "0755" else f.perm in
      do
        _ ← check ((perm == codes "0") || octal_perm perm) bad_permission
        rest ← valid_files fset fs
        ok (record f { perm = perm } ∷ rest)

abbrev pub has_detail : VolumeRef → Bool
has_detail v = elim v.detail [ none ↦ false | some d ↦ true ]

abbrev pub volume_known : List Text → VolumeRef → Bool
volume_known vset v = member v.volume vset || has_detail v

unfoldable pub valid_container : List Text → List Text → ContainerSpec → Result Error ContainerSpec
unfolding key_set valid_files
valid_container vset fset c = do
  _ ← check (key_set (map (λ v. v.volume) c.volumes)) references_not_unique
  _ ← check (key_set c.envs) envs_not_unique
  files ← valid_files fset c.files
  _ ← check (all (volume_known vset) c.volumes) no_such_volume
  _ ← check (empty_or volume_caches c.cache) bad_cache
  ok (record c { files = files })

unfoldable pub valid_containers :
    List Text → List Text → List ContainerSpec → Result Error (List ContainerSpec)
unfolding valid_container
valid_containers vset fset [] = ok []
valid_containers vset fset (c ∷ cs) = do
  c' ← valid_container vset fset c
  rest ← valid_containers vset fset cs
  ok (c' ∷ rest)

abbrev pub volume_names : PodSpec → List Text
volume_names p = map (λ v. v.name) p.volumes

abbrev pub file_names : PodSpec → List Text
file_names p = map (λ f. f.name) p.files

-- (pod *UserPod) Validate
unfoldable pub validate : (Text → Bool) → PodSpec → Result Error PodSpec
unfolding valid_hostname one_gateway key_set valid_containers itoa
validate is_ip p = do
  _ ← valid_hostname p.hostname
  _ ← check (one_gateway false p.interfaces) two_gateways
  _ ← check (key_set (volume_names p)) volumes_not_unique
  _ ← check (key_set (file_names p)) files_not_unique
  _ ← check (key_set (map service_key p.services)) services_not_unique
  containers ← valid_containers (volume_names p) (file_names p) p.containers
  _ ← check (all (λ v. empty_or volume_drivers v.format) p.volumes) bad_driver
  _ ← check (all (λ v. empty_or volume_caches v.cache) p.volumes) bad_cache
  _ ← check (all is_ip p.dns) bad_dns
  ok (record p { containers = containers })

-- The map from names that ReorganizeContainers fills: the last of a name counts.
abbrev or_this {ℓ} : {A : Type ℓ} → Option A → Bool → A → Option A
or_this (some later) same a = some later
or_this none same a = if same then some a else none

abbrev pub volume_named : Text → List VolumeSpec → Option VolumeSpec
volume_named n [] = none
volume_named n (v ∷ vs) = or_this (volume_named n vs) (v.name == n) v

abbrev pub file_named : Text → List FileSpec → Option FileSpec
file_named n [] = none
file_named n (f ∷ fs) = or_this (file_named n fs) (f.name == n) f

-- The loops over the references of a container. A reference without a detail gets the one of its
-- name; if there is none it is left out, or it is an error.
abbrev pub keep_ref {ℓ} :
    {A : Type ℓ} → Bool → Error → Option A → Result Error (List A) → Result Error (List A)
keep_ref allow_absent e (some r) rest = do refs ← rest; ok (r ∷ refs)
keep_ref true e none rest = rest
keep_ref false e none rest = err e

abbrev pub complete_volume : List VolumeSpec → VolumeRef → Option VolumeRef
complete_volume vs r = elim r.detail [
  | some d ↦ some r
  | none ↦ elim (volume_named r.volume vs) [
    | none ↦ none
    | some v ↦ some (record r { detail = some v })
  ]
]

abbrev pub complete_file : List FileSpec → FileRef → Option FileRef
complete_file fs r = elim r.detail [
  | some d ↦ some r
  | none ↦ elim (file_named r.filename fs) [
    | none ↦ none
    | some f ↦ some (record r { detail = some f })
  ]
]

unfoldable pub complete_refs {ℓ} :
    {A : Type ℓ} → Bool → Error → (A → Option A) → List A → Result Error (List A)
complete_refs allow_absent e complete [] = ok []
complete_refs allow_absent e complete (r ∷ rs) =
    keep_ref allow_absent e (complete r) (complete_refs allow_absent e complete rs)

-- The name of a container that has none.
abbrev default_name : Text → Text → ℕ → Text
default_name pod image idx =
    let img = (parse_image_repo_tag image).1 in
    pod ++ b'-' ∷ ((if is_dns_label img then img else []) ++ b'-' ∷ itoa idx)

unfoldable pub complete_container : Bool → PodSpec → ℕ → ContainerSpec → Result Error ContainerSpec
unfolding complete_refs itoa parse_image_repo_tag is_dns_label
complete_container allow_absent p idx c = do
  volumes ← complete_refs allow_absent no_such_volume (complete_volume p.volumes) c.volumes
  files ← complete_refs allow_absent no_such_file (complete_file p.files) c.files
  ok (record c {
    name = if is_nil c.name then default_name p.id c.image idx else c.name;
    tty = p.tty || c.tty;
    volumes = volumes;
    files = files;
  })

unfoldable pub complete_containers :
    Bool → PodSpec → ℕ → List ContainerSpec → Result Error (List ContainerSpec)
unfolding complete_container
complete_containers allow_absent p idx [] = ok []
complete_containers allow_absent p idx (c ∷ cs) = do
  c' ← complete_container allow_absent p idx c
  rest ← complete_containers allow_absent p (idx + 1) cs
  ok (c' ∷ rest)

-- `s[:n]` if the text is longer
abbrev pub first_bytes : ℕ → Text → Text
first_bytes zero t = []
first_bytes (suc n) [] = []
first_bytes (suc n) (c ∷ cs) = c ∷ first_bytes n cs

-- ReorganizeContainers
unfoldable pub reorganize_containers : Bool → PodSpec → Result Error PodSpec
unfolding complete_containers
reorganize_containers allow_absent p = do
  containers ← complete_containers allow_absent p 0 p.containers
  ok (record p {
    hostname = first_bytes 63 (if is_nil p.hostname then p.id else p.hostname);
    containers = containers;
  })
