-- ===== src/Tests/Specs.antt =====
-- types/validate.go, utils: the spec of a pod checked and completed, image names and permissions.
use hyperd.Prelude.{◌≤◌, ◌≡◌, refl, Bool, true, false, none, [], ◌∷◌, length, All, ok}
use hyperd.Prelude.Text.{Text, codes}
use hyperd.PodSpec.{ContainerSpec, PodSpec, VolumeSpec, FileSpec, validate, reorganize_containers}
use hyperd.PodSpec.Soundness.{IsSound, validate-IsSound}
use hyperd.PodSpec.Completion.{IsComplete, reorganize_containers-validate}

abbrev address_book : FileSpec
address_book = record { name = codes "book"; content = codes "alice" }

abbrev data_volume : VolumeSpec
data_volume = record { name = codes "data"; format = codes "vfs"; cache = [] }

-- A container with a volume of the pod and a file without a permission.
abbrev nginx : Text → ContainerSpec
nginx perm = record {
  name = [];
  image = codes "nginx";
  tty = false;
  cache = [];
  envs = codes "PORT" ∷ [];
  volumes = record { volume = codes "data"; detail = none } ∷ [];
  files = record { filename = codes "book"; perm = perm; detail = none } ∷ [];
}

abbrev web : Text → PodSpec
web perm = record {
  id = codes "web";
  hostname = codes "web-1";
  tty = true;
  interfaces = codes "10.0.0.1" ∷ [] ∷ [];
  volumes = data_volume ∷ [];
  files = address_book ∷ [];
  services = [];
  containers = nginx perm ∷ [];
  dns = codes "8.8.8.8" ∷ [];
}

abbrev accept_all : Text → Bool
accept_all t = true

validate-IsSound_example :
    IsSound accept_all (web (codes "0755"))
    × (validate accept_all (web (codes "0755")) ≡ ok (web (codes "0755")))
unfolding validate
validate-IsSound_example = validate-IsSound accept_all (web []) (web (codes "0755")) refl

reorganize_containers-validate_example :
    (r : PodSpec) × (reorganize_containers false (web (codes "0755")) ≡ ok r)
    × All IsComplete r.containers
    × (length r.hostname ≤ 63)
unfolding validate
reorganize_containers-validate_example =
    reorganize_containers-validate accept_all false (web []) (web (codes "0755")) refl
