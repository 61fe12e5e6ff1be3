-- ===== src/Creation/Init.antt =====
-- daemon/pod/container.go: init with loadJson and createByEngine.
use hyperd.Prelude.{
  Bool, true, false, not, Option, none, some, List, [], ◌∷◌, map, nat_beq, ◌==◌, if◌then◌else◌,
  Result, ok, err, ◌>>=◌,
}
use hyperd.Prelude.Text.{Text, text_eq}
use hyperd.PodSpec.{is_nil}
use hyperd.Creation.Spec.{
  UserContainer, ContainerJson, ContainerDescription, Error, no_name, not_loaded, not_created,
  no_volume,
}
use hyperd.Creation.Describe.{or_text, describe_container}
use hyperd.Creation.Volumes.{
  merge_volumes, create_volumes, config_etc_hosts, config_dns, MadeVolume, with_source,
  parse_volumes,
}

-- What init is answered: the engine on the container's id and on a creation, with the id it gives;
-- the storage driver; the pod and the host.
pub record Answers : Type 0 where
  pub inspected : Option ContainerJson
  pub created : Option (Text × ContainerJson)
  pub mount_id : Option Text
  pub volume_sources : List (Option MadeVolume)
  pub pod : Text
  pub dns : List Text
  pub hosts_path : Text
  pub host_resolv : Bool

-- strings.TrimLeft(s, "/")
abbrev pub trim_slashes : Text → Text
trim_slashes [] = []
trim_slashes (c ∷ cs) = let rest = trim_slashes cs in if nat_beq c b'/' then rest else c ∷ cs

-- loadJson: the spec, whose id is dropped when the names differ, and what is loaded
unfoldable pub load_json :
    UserContainer → Option ContainerJson → UserContainer × Option ContainerJson
load_json c none = (c, none)
load_json c (some json) =
    if c.name == trim_slashes json.name then (c, some json) else (record c { id = [] }, none)

-- createByEngine
unfoldable pub create_by_engine :
    UserContainer → Option (Text × ContainerJson) → Result Error (UserContainer × ContainerJson)
create_by_engine c none = err not_created
create_by_engine c (some (id, json)) = ok (record c { id = id }, json)

-- The part of init that is for a new container only, but for injectFiles, which copies files and
-- whose error is dropped.
unfoldable pub complete : Answers → UserContainer → Result Error UserContainer
unfolding create_volumes config_etc_hosts config_dns
complete a c = elim (create_volumes c.volumes [] [] a.volume_sources) [
  | err removed ↦ err no_volume
  | ok sources ↦
      let c' = record c { volumes = map (with_source sources) c.volumes } in
      ok (config_dns a.pod a.dns a.host_resolv (config_etc_hosts a.hosts_path c'))
]

-- init, once the engine's container is known
unfoldable pub finish :
    Answers
    → Bool
    → UserContainer
    → ContainerJson
    → Result Error (UserContainer × ContainerDescription)
unfolding describe_container merge_volumes complete parse_volumes
finish a loaded c0 json =
    let c = record c0 { image = or_text c0.image json.config_image } in
    do
      desc ← describe_container c json a.mount_id
      c' ← if loaded then ok (merge_volumes json c) else complete a (merge_volumes json c)
      ok (c', record desc { volumes = parse_volumes c'.volumes; initialize = not loaded })

-- init, when there is nothing to load
unfoldable pub init_created :
    Answers → Bool → Bool → UserContainer → Result Error (UserContainer × ContainerDescription)
unfolding create_by_engine finish
init_created a allow_create loaded c =
    if allow_create
    then (do (c', json) ← create_by_engine c a.created; finish a loaded c' json)
    else err not_loaded

-- init, after loadJson; `loaded` is set, whether or not the container is found.
unfoldable pub init_loaded :
    Answers
    → Bool
    → UserContainer × Option ContainerJson
    → Result Error (UserContainer × ContainerDescription)
unfolding finish init_created
init_loaded a allow_create (c, none) = init_created a allow_create true c
init_loaded a allow_create (c, some json) = finish a true c json

unfoldable pub init :
    Answers → Bool → UserContainer → Result Error (UserContainer × ContainerDescription)
unfolding load_json init_created init_loaded
init a allow_create c =
    if is_nil c.name
    then err no_name
    else if is_nil c.id
    then init_created a allow_create false c
    else init_loaded a allow_create (load_json c a.inspected)
