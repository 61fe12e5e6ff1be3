-- ===== src/Creation/Spec.antt =====
-- daemon/pod/container.go, types: what init reads and makes.
use hyperd.Prelude.{ℕ, Bool, Option, List, Dict}
use hyperd.Prelude.Text.{Text, text_eq}

-- UserVolume
pub record UserVolume : Type 0 where
  pub name : Text
  pub source : Text
  pub format : Text
  pub fstype : Text

-- UserVolumeReference
pub record UserVolumeReference : Type 0 where
  pub volume : Text
  pub path : Text
  pub read_only : Bool
  pub detail : Option UserVolume

-- UserFileReference; of its detail the uri
pub record UserFileReference : Type 0 where
  pub path : Text
  pub filename : Text
  pub uri : Option Text

-- Ulimit and Rlimit
pub record Ulimit : Type 0 where
  pub name : Text
  pub hard : ℕ
  pub soft : ℕ

-- UserUser and runv.UserGroupInfo
pub record UserGroup : Type 0 where
  pub user : Text
  pub group : Text
  pub additional_groups : List Text

-- UserContainer, the fields that init reads or writes
pub record UserContainer : Type 0 where
  pub id : Text
  pub name : Text
  pub image : Text
  pub labels : Dict Text Text
  pub tty : Bool
  pub stop_signal : Text
  pub user : Option UserGroup
  pub ulimits : List Ulimit
  pub volumes : List UserVolumeReference
  pub files : List UserFileReference

-- The fields of the engine's ContainerJSON that are read; of the map of volumes, the keys.
pub record ContainerJson : Type 0 where
  pub name : Text
  pub image : Text
  pub path : Text
  pub arguments : List Text
  pub config_image : Text
  pub workdir : Text
  pub stop_signal : Text
  pub user : Text
  pub env : List Text
  pub volumes : List Text

-- runv.VolumeReference with its mount points, each a path and whether it is read only
pub record VolumeReference : Type 0 where
  pub name : Text
  pub mount_points : List (Text × Bool)

-- runv.ContainerDescription
pub record ContainerDescription : Type 0 where
  pub id : Text
  pub name : Text
  pub image : Text
  pub labels : Dict Text Text
  pub tty : Bool
  pub mount_id : Text
  pub envs : Dict Text Text
  pub workdir : Text
  pub path : Text
  pub arguments : List Text
  pub rlimits : List Ulimit
  pub stop_signal : Text
  pub ugi : Option UserGroup
  pub volumes : Dict Text VolumeReference
  pub initialize : Bool

pub data Error : Type 0 where
  no_name not_loaded not_created no_mount_id bad_user no_volume : Error
