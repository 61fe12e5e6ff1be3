-- ===== src/PodSpec/Validation.antt =====
-- types/validate.go: what a spec that passes the checks is like.
use hyperd.Prelude.{
  ◌≡◌, refl, arith, Bool, true, false, ◌||◌, List, [], ◌∷◌, map, All, ◌==◌, ==_iff, if◌then◌else◌,
  Result, ok, err, ◌>>=◌, subst,
}
use hyperd.Prelude.Text.{Text, text_eq, codes}
use hyperd.PodSpec.{
  PodSpec, ContainerSpec, FileRef, Error, no_such_file, bad_permission, references_not_unique,
  envs_not_unique, no_such_volume, bad_cache, bad_driver, bad_dns, two_gateways, volumes_not_unique,
  files_not_unique, services_not_unique, check, is_nil, all, member, unique_from, key_set,
  service_key, valid_hostname, one_gateway, octal_perm, valid_files, volume_known, valid_container,
  valid_containers, volume_names, file_names, validate, empty_or, volume_drivers, volume_caches,
}

-- What holds of the value, if there is one.
abbrev pub Holds {ℓ κ} : {A : Type ℓ} → (A → Type κ) → Result Error A → Type κ
Holds Q (ok a) = Q a
Holds Q (err e) = Unit

check-Holds {ℓ κ} :
    {A : Type ℓ} (Q : A → Type κ) (b : Bool) (e : Error) (k : Unit {0} → Result Error A)
    → (b ≡ true → Holds Q (k tt))
    → Holds Q (check b e >>= k)
check-Holds Q true e k h = h refl
check-Holds Q false e k h = tt

bind-Holds {ℓ κ ν μ} :
    {A : Type ℓ} {B : Type κ} (R : A → Type ν) (Q : B → Type μ) (r : Result Error A)
    (k : A → Result Error B)
    → Holds R r
    → ((x : A) → R x → Holds Q (k x))
    → Holds Q (r >>= k)
bind-Holds R Q (ok x) k h f = f x h
bind-Holds R Q (err e) k h f = tt

ok-Holds {ℓ κ} :
    {A : Type ℓ} (Q : A → Type κ) (r : Result Error A) (a : A) → Holds Q r → r ≡ ok a → Q a
ok-Holds Q (ok x) a h e = subst Q (ground (arith, e)) h
ok-Holds Q (err x) a h e = absurd (ground arith)

-- Each file is in the pod's list, and has a permission, "0" or with octal digits.
abbrev pub IsValidFile : List Text → FileRef → Type 0
IsValidFile fset f =
    (member f.filename fset ≡ true)
    × (is_nil f.perm ≡ false)
    × (((f.perm == codes "0") || octal_perm f.perm) ≡ true)

abbrev FilesValid : List Text → List FileRef → Type 0
FilesValid fset gs = All (IsValidFile fset) gs × (valid_files fset gs ≡ ok gs)

perm_nonempty : (f : FileRef) → is_nil (if is_nil f.perm then codes "0755" else f.perm) ≡ false
perm_nonempty f = ground arith

valid_files-FilesValid :
    (fset : List Text) (fs : List FileRef) → Holds (FilesValid fset) (valid_files fset fs)
unfolding valid_files
valid_files-FilesValid fset [] = (tt, refl)
valid_files-FilesValid fset (f ∷ fs) =
    let perm = if is_nil f.perm then codes "0755" else f.perm in
    check-Holds (FilesValid fset) (member f.filename fset) no_such_file _ (λ m.
      check-Holds (FilesValid fset) ((perm == codes "0") || octal_perm perm) bad_permission _ (λ o.
        bind-Holds (FilesValid fset) (FilesValid fset) (valid_files fset fs) _
          (valid_files-FilesValid fset fs)
          (λ gs v.
            (((m, perm_nonempty f, o), v.0), rw (m, perm_nonempty f, o, v.1, valid_files) refl))))

-- No key comes twice.
abbrev pub AllDistinct : List Text → Type 0
AllDistinct [] = Unit
AllDistinct (k ∷ ks) = (member k ks ≡ false) × AllDistinct ks

unique_from-seen :
    (seen ks : List Text) (k : Text)
    → unique_from seen ks ≡ true
    → member k seen ≡ true
    → member k ks ≡ false
unfolding unique_from
unique_from-seen seen [] k h m = refl
unique_from-seen seen (j ∷ ks) k h m = ground (arith, unique_from-seen (j ∷ seen) ks k, ==_iff j k)

unique_from-AllDistinct : (seen ks : List Text) → unique_from seen ks ≡ true → AllDistinct ks
unfolding unique_from
unique_from-AllDistinct seen [] h = tt
unique_from-AllDistinct seen (k ∷ ks) h = (
  ground (arith, unique_from-seen (k ∷ seen) ks k, ==_iff k k),
  unique_from-AllDistinct (k ∷ seen) ks (ground arith),
)

key_set-AllDistinct : (ks : List Text) → key_set ks ≡ true → AllDistinct ks
unfolding key_set
key_set-AllDistinct ks h = unique_from-AllDistinct [] ks h

abbrev pub sources : ContainerSpec → List Text
sources c = map (λ v. v.volume) c.volumes

-- What is checked of a container against the names of the pod's volumes and files.
pub record IsValidContainer (vset fset : List Text) (c : ContainerSpec) : Type 0 where
  pub sources_differ : AllDistinct (sources c)
  pub envs_differ : AllDistinct c.envs
  pub volumes_known : all (volume_known vset) c.volumes ≡ true
  pub files_valid : All (IsValidFile fset) c.files
  pub cache_known : empty_or volume_caches c.cache ≡ true

abbrev ContainerValid : List Text → List Text → ContainerSpec → Type 0
ContainerValid vset fset c = IsValidContainer vset fset c × (valid_container vset fset c ≡ ok c)

valid_container-ContainerValid :
    (vset fset : List Text) (c : ContainerSpec)
    → Holds (ContainerValid vset fset) (valid_container vset fset c)
unfolding valid_container
valid_container-ContainerValid vset fset c =
    let Q = ContainerValid vset fset in
    check-Holds Q (key_set (sources c)) references_not_unique _ (λ s.
      check-Holds Q (key_set c.envs) envs_not_unique _ (λ e.
        bind-Holds (FilesValid fset) Q (valid_files fset c.files) _
          (valid_files-FilesValid fset c.files)
          (λ fs v. check-Holds Q (all (volume_known vset) c.volumes) no_such_volume _ (λ k.
            check-Holds Q (empty_or volume_caches c.cache) bad_cache _ (λ a. (
              record {
                sources_differ = key_set-AllDistinct (sources c) s;
                envs_differ = key_set-AllDistinct c.envs e;
                volumes_known = k;
                files_valid = v.0;
                cache_known = a;
              },
              rw (s, e, v.1, k, a, valid_container) refl,
            ))))))

abbrev ContainersValid : List Text → List Text → List ContainerSpec → Type 0
ContainersValid vset fset cs =
    All (IsValidContainer vset fset) cs × (valid_containers vset fset cs ≡ ok cs)

valid_containers-ContainersValid :
    (vset fset : List Text) (cs : List ContainerSpec)
    → Holds (ContainersValid vset fset) (valid_containers vset fset cs)
unfolding valid_containers
valid_containers-ContainersValid vset fset [] = (tt, refl)
valid_containers-ContainersValid vset fset (c ∷ cs) =
    let Q = ContainersValid vset fset in
    bind-Holds (ContainerValid vset fset) Q (valid_container vset fset c) _
      (valid_container-ContainerValid vset fset c)
      (λ d v.
        bind-Holds Q Q (valid_containers vset fset cs) _
          (valid_containers-ContainersValid vset fset cs)
          (λ ds vs. ((v.0, vs.0), rw (v.1, vs.1, valid_containers) refl)))

-- A spec whose names are unique and whose references are resolved.
pub record IsValid (is_ip : Text → Bool) (p : PodSpec) : Type 0 where
  pub one_gateway_at_most : one_gateway false p.interfaces ≡ true
  pub volumes_differ : AllDistinct (volume_names p)
  pub files_differ : AllDistinct (file_names p)
  pub services_differ : AllDistinct (map service_key p.services)
  pub containers_valid : All (IsValidContainer (volume_names p) (file_names p)) p.containers
  pub drivers_known : all (λ v. empty_or volume_drivers v.format) p.volumes ≡ true
  pub dns_are_addresses : all is_ip p.dns ≡ true

validate-Holds :
    (is_ip : Text → Bool) (p : PodSpec)
    → Holds (λ q. IsValid is_ip q × (validate is_ip q ≡ ok q)) (validate is_ip p)
unfolding validate
validate-Holds is_ip p =
    let Q = λ (q : PodSpec). IsValid is_ip q × (validate is_ip q ≡ ok q) in
    bind-Holds (λ u. valid_hostname p.hostname ≡ ok u) Q (valid_hostname p.hostname) _
      (itself (valid_hostname p.hostname))
      (λ u h. check-Holds Q (one_gateway false p.interfaces) two_gateways _ (λ g.
        check-Holds Q (key_set (volume_names p)) volumes_not_unique _ (λ v.
          check-Holds Q (key_set (file_names p)) files_not_unique _ (λ f.
            check-Holds Q (key_set (map service_key p.services)) services_not_unique _ (λ s.
              bind-Holds (ContainersValid (volume_names p) (file_names p)) Q
                (valid_containers (volume_names p) (file_names p) p.containers) _
                (valid_containers-ContainersValid (volume_names p) (file_names p) p.containers)
                (λ cs c.
                  check-Holds Q (all (λ v. empty_or volume_drivers v.format) p.volumes) bad_driver _
                    (λ d.
                      check-Holds Q (all (λ v. empty_or volume_caches v.cache) p.volumes) bad_cache
                        _
                        (λ a. check-Holds Q (all is_ip p.dns) bad_dns _ (λ i. (
                          record {
                            one_gateway_at_most = g;
                            volumes_differ = key_set-AllDistinct (volume_names p) v;
                            files_differ = key_set-AllDistinct (file_names p) f;
                            services_differ = key_set-AllDistinct (map service_key p.services) s;
                            containers_valid = c.0;
                            drivers_known = d;
                            dns_are_addresses = i;
                          },
                          rw (h, g, v, f, s, c.1, d, a, i, validate) refl,
                        ))))))))))
  where
    itself : (r : Result Error (Unit {0})) → Holds (λ u. r ≡ ok u) r
    itself (ok u) = refl
    itself (err e) = tt

-- A spec that passes the checks has at most one gateway, different names of volumes, files and
-- services, drivers that are known and addresses for its DNS servers; in each container the volume
-- sources and the environment names differ, each volume is one of the pod's or comes with its
-- detail, and each file is one of the pod's, with a permission of the accepted form. Checking it
-- again changes nothing.
pub validate-IsValid :
    (is_ip : Text → Bool) (p q : PodSpec)
    → validate is_ip p ≡ ok q
    → IsValid is_ip q × (validate is_ip q ≡ ok q)
validate-IsValid is_ip p q h =
    ok-Holds (λ r. IsValid is_ip r × (validate is_ip r ≡ ok r)) (validate is_ip p) q
      (validate-Holds is_ip p) h
