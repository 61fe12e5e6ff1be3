-- ===== src/Tests/Sandbox.antt =====
-- daemon/pod: a container created and loaded again, the interfaces of a pod, and a pod removed from
-- the database.
use hyperd.Prelude.{
  ◌≡◌, refl, Bool, true, false, Option, none, some, List, [], ◌∷◌, lookup, insert, if◌then◌else◌,
  ◌==◌, ok, err, inl, inr,
}
use hyperd.Prelude.Text.{Text, text_eq, codes}
use hyperd.Creation.Spec.{UserVolumeReference, UserContainer, ContainerJson, ContainerDescription}
use hyperd.Creation.Volumes.{MadeVolume}
use hyperd.Creation.Init.{Answers, init}
use hyperd.Creation.Reload.{init-reload}
use hyperd.Interfaces.{Interface}
use hyperd.Persist.{PodRecord, Database, info, container_key, spec_key, save_pod}
use hyperd.Persist.Erase.{remove_from_db}
use hyperd.Persist.Undo.{Erased, remove_from_db-save_pod}

abbrev reference : Text → UserVolumeReference
reference path = record {
  volume = codes "data";
  path = path;
  read_only = false;
  detail = some (record { name = codes "data"; source = []; format = []; fstype = [] });
}

abbrev nginx : Text → UserContainer
nginx id = record {
  id = id;
  name = codes "nginx";
  image = [];
  labels = [];
  tty = false;
  stop_signal = [];
  user = none;
  ulimits = [];
  volumes = reference (codes "/data") ∷ reference (codes "/srv") ∷ [];
  files = [];
}

abbrev json : ContainerJson
json = record {
  name = codes "/nginx";
  image = codes "sha256:1";
  path = codes "nginx";
  arguments = codes "-g" ∷ [];
  config_image = codes "nginx:1.9";
  workdir = [];
  stop_signal = codes "SIGQUIT";
  user = codes "www:web";
  env = codes "PATH=/bin" ∷ codes "TERM" ∷ [];
  volumes = codes "/cache" ∷ codes "/srv" ∷ [];
}

abbrev raw : Text → MadeVolume
raw source = record { source = source; format = codes "raw"; fstype = codes "ext4" }

abbrev answers : Option ContainerJson → Answers
answers inspected = record {
  inspected = inspected;
  created = some (codes "c1", json);
  mount_id = some (codes "m1");
  volume_sources = some (raw (codes "/vols/data")) ∷ some (raw (codes "/vols/cache")) ∷ [];
  pod = codes "web";
  dns = [];
  hosts_path = codes "/hosts/web";
  host_resolv = true;
}

abbrev made : Answers → UserContainer → UserContainer × ContainerDescription
unfolding init
made a c = elim (init a true c) [ ok r ↦ r | err e ↦ (c, dummy) ]
  where
    dummy : ContainerDescription
    dummy = record {
      id = [];
      name = [];
      image = [];
      labels = [];
      tty = false;
      mount_id = [];
      envs = [];
      workdir = [];
      path = [];
      arguments = [];
      rlimits = [];
      stop_signal = [];
      ugi = none;
      volumes = [];
      initialize = false;
    }

abbrev new_one : UserContainer × ContainerDescription
new_one = made (answers none) (nginx [])

init-reload_example :
    init (answers (some json)) false new_one.0
    ≡ ok (new_one.0, record new_one.1 { initialize = false })
unfolding init lookup insert
init-reload_example =
    init-reload (answers none) (answers (some json)) false (nginx []) (codes "c1") json new_one refl
      refl refl refl refl refl refl refl

abbrev lost : UserContainer × ContainerDescription
lost = made (answers none) (nginx (codes "c0"))

abbrev interface : Text → Text → Option Text → Interface
interface id ip descript = record { id = id; ip = ip; bridge = []; descript = descript }

abbrev three : List Interface
three = interface [] [] none ∷ interface (codes "1") [] none ∷ interface [] [] none ∷ []

-- The second has no address left, and the third still has one of an earlier time.
abbrev restarted : List Interface
restarted =
    interface (codes "0") [] none
    ∷ interface (codes "1") [] none
    ∷ interface (codes "2") [] (some (codes "10.0.0.9"))
    ∷ []

abbrev web : PodRecord
web = record {
  id = codes "web";
  spec = codes "one vcpu";
  sandbox = none;
  meta = [];
  port_mappings = [];
  containers = (codes "c1", codes "nginx") ∷ [];
  volumes = (codes "data", codes "/dev/sdb") ∷ [];
  interfaces = (codes "0", codes "bridge") ∷ (codes "1", codes "bridge") ∷ [];
}

abbrev others : Database
others = (container_key (codes "c9"), info (codes "cache")) ∷ []

-- The database refuses the volume, so that the pod is saved up to it.
abbrev no_volumes : Text → Bool
no_volumes key = if key == codes "VX-web-data" then false else true

abbrev all_removed : Text → Bool
all_removed key = true

-- The first interface has been prepared, and the second not.
abbrev first_only : Text → Option Text
first_only i = if i == codes "0" then some (codes "0") else none

remove_from_db-save_pod_example :
    Erased all_removed first_only web others
      (save_pod no_volumes web others).0
      (spec_key (codes "web"))
      (remove_from_db all_removed first_only web (save_pod no_volumes web others).0)
unfolding remove_from_db save_pod
remove_from_db-save_pod_example =
    remove_from_db-save_pod no_volumes all_removed first_only web others (spec_key (codes "web"))
      (inr refl, (inl refl, tt))
