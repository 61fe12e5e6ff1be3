-- ===== src/Creation/Growth.antt =====
-- daemon/pod/container.go: init adds volumes and files to a spec, and keeps the rest.
use hyperd.Prelude.{
  ◌≡◌, inl, inr, refl, sym, ap, ◌∙◌, arith, Bool, true, not, ◌||◌, Bool-cases, Option, none, some,
  List, [], ◌∷◌, ◌++◌, any, map, Dict, ==_refl, append-nil, subst, ◌==◌, if◌then◌else◌, Result, ok,
  err,
}
use hyperd.Prelude.Text.{Text, text_eq}
use hyperd.PodSpec.{is_nil}
use hyperd.Creation.Spec.{UserVolume, UserVolumeReference, UserFileReference, UserContainer}
use hyperd.Creation.Volumes.{
  anonymous, hosts_file, hosts_volume, resolv_file, resolv_reference, is_resolv, mounts_at,
  missing_volumes, config_etc_hosts, config_dns, create_volumes, MadeVolume, with_source,
}
use hyperd.Creation.Init.{Answers, complete}

-- Every one of the paths has a reference.
abbrev pub Mounted : List Text → List UserVolumeReference → Type 0
Mounted [] vs = Unit {0}
Mounted (p ∷ ps) vs = (mounts_at p vs ≡ true) × Mounted ps vs

pub Mounted-mono :
    (ps : List Text) (vs ws : List UserVolumeReference)
    → ((p : Text) → mounts_at p vs ≡ true → mounts_at p ws ≡ true)
    → Mounted ps vs
    → Mounted ps ws
Mounted-mono [] vs ws more h = tt
Mounted-mono (p ∷ ps) vs ws more (h, hs) = (more p h, Mounted-mono ps vs ws more hs)

mounts_at-append :
    (p : Text) (vs ws : List UserVolumeReference)
    → mounts_at p (vs ++ ws) ≡ (mounts_at p vs || mounts_at p ws)
mounts_at-append p [] ws = refl
mounts_at-append p (v ∷ vs) ws = ground (arith, mounts_at-append p vs ws)

mounts_at-sources :
    (p : Text) (sources : List (Text × MadeVolume)) (vs : List UserVolumeReference)
    → mounts_at p (map (with_source sources) vs) ≡ mounts_at p vs
mounts_at-sources p sources [] = refl
mounts_at-sources p sources (v ∷ vs) =
    ap (λ b. if b then true else mounts_at p (map (with_source sources) vs))
      (path_kept v.detail refl)
    ∙ ap (λ b. if v.path == p then true else b) (mounts_at-sources p sources vs)
  where
    path_kept :
        (o : Option UserVolume) → v.detail ≡ o → ((with_source sources v).path == p) ≡ (v.path == p)
    path_kept none e = rw e refl
    path_kept (some d) e = rw e refl

pub missing_volumes-none :
    (id : Text) (vs : List UserVolumeReference) (ps : List Text)
    → Mounted ps vs
    → missing_volumes id vs ps ≡ []
unfolding missing_volumes
missing_volumes-none id vs [] h = refl
missing_volumes-none id vs (p ∷ ps) (h, hs) = rw (h, missing_volumes-none id vs ps hs) refl

mounts_at-more :
    (p : Text) (vs ws : List UserVolumeReference)
    → mounts_at p vs ≡ true
    → mounts_at p (vs ++ ws) ≡ true
mounts_at-more p vs ws h = ground (arith, h, mounts_at-append p vs ws)

mounts_at-later :
    (p : Text) (vs ws : List UserVolumeReference)
    → mounts_at p ws ≡ true
    → mounts_at p (vs ++ ws) ≡ true
mounts_at-later p vs ws h = ground (arith, h, mounts_at-append p vs ws)

pub missing_volumes-Mounted :
    (id : Text) (vs : List UserVolumeReference) (ps : List Text)
    → Mounted ps (vs ++ missing_volumes id vs ps)
unfolding missing_volumes
missing_volumes-Mounted id vs [] = tt
missing_volumes-Mounted id vs (p ∷ ps) = elim (Bool-cases (mounts_at p vs)) [
  | inl e ↦
      rw e (mounts_at-more p vs (missing_volumes id vs ps) e, missing_volumes-Mounted id vs ps)
  | inr e ↦ rw e (
    mounts_at-later p vs (anonymous id p ∷ missing_volumes id vs ps) (ground (arith, ==_refl p)),
    Mounted-mono ps (vs ++ missing_volumes id vs ps)
        (vs ++ (anonymous id p ∷ missing_volumes id vs ps))
        (λ q h. ground (
          arith,
          h,
          mounts_at-append q vs (missing_volumes id vs ps),
          mounts_at-append q vs (anonymous id p ∷ missing_volumes id vs ps),
        ))
        (missing_volumes-Mounted id vs ps),
  )
]

-- The second container is the first with other volumes and files, and every path that has a
-- reference in the first has one in the second.
abbrev pub Grown : UserContainer → UserContainer → Type 0
Grown c d =
    (vs : List UserVolumeReference) × (fs : List UserFileReference) × (d
      ≡ record c { volumes = vs; files = fs })
    × ((p : Text) → mounts_at p c.volumes ≡ true → mounts_at p vs ≡ true)

config_dns-files :
    (pod : Text) (dns : List Text) (host : Bool) (d : UserContainer)
    → (fs : List UserFileReference) × (config_dns pod dns host d ≡ record d { files = fs })
unfolding config_dns
config_dns-files pod dns host d =
    let test =
      not (is_nil dns) || not host || mounts_at resolv_file d.volumes || any is_resolv d.files in
    elim (Bool-cases test) [
      | inl e ↦ (d.files, rw e refl)
      | inr e ↦ (d.files ++ (resolv_reference pod ∷ []), rw e refl)
    ]

config_dns-Grown :
    (pod : Text) (dns : List Text) (host : Bool) (c d : UserContainer)
    → Grown c d
    → Grown c (config_dns pod dns host d)
config_dns-Grown pod dns host c d (vs, fs, e, more) =
    let (fs', e') = config_dns-files pod dns host d in
    (vs, fs', e' ∙ ap (λ (x : UserContainer). record x { files = fs' }) e, more)

config_etc_hosts-volumes :
    (path : Text) (d : UserContainer)
    → (ws : List UserVolumeReference) × (config_etc_hosts path d
        ≡ record d { volumes = d.volumes ++ ws })
unfolding config_etc_hosts
config_etc_hosts-volumes path d =
    let test =
      mounts_at hosts_file d.volumes
      || any (λ (f : UserFileReference). f.path == hosts_file) d.files in
    elim (Bool-cases test) [
      | inl e ↦ ([], rw e (ap (λ t. record d { volumes = t }) (sym (append-nil d.volumes))))
      | inr e ↦ (hosts_volume path ∷ [], rw e refl)
    ]

config_etc_hosts-Grown :
    (path : Text) (c d : UserContainer) → Grown c d → Grown c (config_etc_hosts path d)
config_etc_hosts-Grown path c d (vs, fs, e, more) =
    let (ws, e') = config_etc_hosts-volumes path d in
    (
      vs ++ ws,
      fs,
      e' ∙ ap (λ (x : UserContainer). record x { volumes = x.volumes ++ ws }) e,
      λ p h. mounts_at-more p vs ws (more p h),
    )

pub complete-Grown : (a : Answers) (c d : UserContainer) → complete a c ≡ ok d → Grown c d
unfolding complete
complete-Grown a c d h = of_sources (create_volumes c.volumes [] [] a.volume_sources) refl
  where
    of_sources :
        (r : Result (List Text) (Dict Text MadeVolume))
        → create_volumes c.volumes [] [] a.volume_sources ≡ r
        → Grown c d
    of_sources (err removed) e = absurd (ground (arith, h, e))
    of_sources (ok sources) e =
        let c' : UserContainer = record c { volumes = map (with_source sources) c.volumes } in
        let grown =
          config_dns-Grown a.pod a.dns a.host_resolv c (config_etc_hosts a.hosts_path c') (
            config_etc_hosts-Grown a.hosts_path c c' (
              map (with_source sources) c.volumes,
              c.files,
              refl,
              λ p k. mounts_at-sources p sources c.volumes ∙ k,
            )) in
        subst (λ x. Grown c x) (ground (arith, h, e)) grown
