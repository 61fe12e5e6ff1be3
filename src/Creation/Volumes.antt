-- ===== src/Creation/Volumes.antt =====
-- daemon/pod/container.go: the volumes and the files of a container's spec, from parseVolumes to
-- configDNS.
use hyperd.Prelude.{
  Bool, false, not, ◌||◌, Option, none, some, List, [], ◌∷◌, ◌++◌, any, map, Dict, lookup, insert,
  nat_beq, ◌==◌, if◌then◌else◌, Result, ok, err,
}
use hyperd.Prelude.Text.{Text, text_eq, codes}
use hyperd.PodSpec.{is_nil}
use hyperd.Creation.Spec.{
  UserVolume, UserVolumeReference, UserFileReference, UserContainer, ContainerJson, VolumeReference,
}

-- parseVolumes: the references by the name of their volume
abbrev pub mount_point : UserVolumeReference → Text × Bool
mount_point v = (v.path, v.read_only)

abbrev pub add_mount : UserVolumeReference → Option VolumeReference → VolumeReference
add_mount v none = record { name = v.volume; mount_points = mount_point v ∷ [] }
add_mount v (some r) = record r { mount_points = r.mount_points ++ (mount_point v ∷ []) }

unfoldable pub parse_loop :
    List UserVolumeReference → Dict Text VolumeReference → Dict Text VolumeReference
parse_loop [] refs = refs
parse_loop (v ∷ vs) refs = parse_loop vs (insert v.volume (add_mount v (lookup v.volume refs)) refs)

unfoldable pub parse_volumes : List UserVolumeReference → Dict Text VolumeReference
unfolding parse_loop
parse_volumes vs = parse_loop vs []

abbrev pub mounts_at : Text → List UserVolumeReference → Bool
mounts_at path vs = any (λ (v : UserVolumeReference). v.path == path) vs

-- strings.Replace(s, "/", "_", -1)
abbrev pub underscored : Text → Text
underscored t = map (λ c. if nat_beq c b'/' then b'_' else c) t

-- The anonymous volume that the image wants at a path.
abbrev pub anonymous : Text → Text → UserVolumeReference
anonymous id path =
    let n = id ++ underscored path in
    record {
      volume = n;
      path = path;
      read_only = false;
      detail = some (record { name = n; source = []; format = []; fstype = [] });
    }

-- mergeVolumes: the references that are added, given those of the spec
unfoldable pub missing_volumes :
    Text → List UserVolumeReference → List Text → List UserVolumeReference
missing_volumes id existed [] = []
missing_volumes id existed (path ∷ paths) =
    let rest = missing_volumes id existed paths in
    if mounts_at path existed then rest else anonymous id path ∷ rest

unfoldable pub merge_volumes : ContainerJson → UserContainer → UserContainer
unfolding missing_volumes
merge_volumes json c = record c {
  volumes = c.volumes ++ missing_volumes c.id c.volumes json.volumes;
}

abbrev pub hosts_file : Text
hosts_file = codes "/etc/hosts"

abbrev pub resolv_file : Text
resolv_file = codes "/etc/resolv.conf"

abbrev pub hosts_volume : Text → UserVolumeReference
hosts_volume source = record {
  volume = codes "etchosts-volume";
  path = hosts_file;
  read_only = false;
  detail = some (record {
    name = codes "etchosts-volume";
    source = source;
    format = codes "vfs";
    fstype = codes "dir";
  });
}

-- configEtcHosts, with the path of the pod's hosts file
unfoldable pub config_etc_hosts : Text → UserContainer → UserContainer
config_etc_hosts source c =
    if mounts_at hosts_file c.volumes
      || any (λ (f : UserFileReference). f.path == hosts_file) c.files
    then c
    else record c { volumes = c.volumes ++ (hosts_volume source ∷ []) }

abbrev pub is_resolv : UserFileReference → Bool
is_resolv f =
    f.path == resolv_file
    || (f.path ++ f.filename) == resolv_file
    || elim f.uri [ none ↦ false | some u ↦ u == (codes "file://" ++ resolv_file) ]

abbrev pub resolv_reference : Text → UserFileReference
resolv_reference pod = record {
  path = resolv_file;
  filename = pod ++ codes "-resolvconf";
  uri = some (codes "file://" ++ resolv_file);
}

-- configDNS, with the pod's id and servers, and whether the host has a regular resolv.conf
unfoldable pub config_dns : Text → List Text → Bool → UserContainer → UserContainer
config_dns pod dns host c =
    if not (is_nil dns) || not host || mounts_at resolv_file c.volumes || any is_resolv c.files
    then c
    else record c { files = c.files ++ (resolv_reference pod ∷ []) }

-- createVolumes. References with details of one name share the object, so that the source which
-- the driver gives to it is seen at the later ones: `sources` are those given so far. An answer of
-- the driver is what CreateVolume writes to the volume's spec, or `none` for an error, after which
-- the volumes created are removed.
pub record MadeVolume : Type 0 where
  pub source : Text
  pub format : Text
  pub fstype : Text

abbrev pub made_detail : Dict Text MadeVolume → UserVolume → UserVolume
made_detail sources d = elim (lookup d.name sources) [
  | none ↦ d
  | some m ↦ record d { source = m.source; format = m.format; fstype = m.fstype }
]

abbrev pub next_answer : List (Option MadeVolume) → Option MadeVolume × List (Option MadeVolume)
next_answer [] = (none, [])
next_answer (a ∷ as') = (a, as')

-- What the driver has made in the end and the volumes created; on an error those removed.
unfoldable pub create_volumes :
    List UserVolumeReference
    → Dict Text MadeVolume
    → List Text
    → List (Option MadeVolume)
    → Result (List Text) (Dict Text MadeVolume)
create_volumes [] sources created answers = ok sources
create_volumes (v ∷ vs) sources created answers =
    let skipped = create_volumes vs sources created answers in
    elim v.detail [
      | none ↦ skipped
      | some d ↦
          let rest = λ (s : MadeVolume).
            create_volumes vs (insert d.name s sources) (created ++ (v.volume ∷ []))
              (next_answer answers).1 in
          if is_nil (made_detail sources d).source
          then elim (next_answer answers).0 [ none ↦ err created | some s ↦ rest s ]
          else skipped
    ]

-- The details as the driver has written them.
abbrev pub with_source : Dict Text MadeVolume → UserVolumeReference → UserVolumeReference
with_source sources v = elim v.detail [
  | none ↦ v
  | some d ↦ record v { detail = some (made_detail sources d) }
]
