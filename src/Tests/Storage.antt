-- ===== src/Tests/Storage.antt =====
-- daemon/pod/persist.go on a pod with a container and a volume.
use hyperd.Prelude.{◌≡◌, refl, Bool, true, some, [], ◌∷◌, lookup, ok}
use hyperd.Prelude.Text.{Text, codes}
use hyperd.Persist.{
  Database, PodRecord, layout_of, messages, save_all, save_pod, load_pod, remove_container,
}
use hyperd.Persist.RoundTrip.{load_pod-save_pod}
use hyperd.Persist.Removal.{IsErr, remove_container-unloadable}

abbrev web : PodRecord
web = record {
  id = codes "web";
  spec = codes "one vcpu";
  sandbox = some (codes "vm-1");
  meta = codes "tier=front";
  port_mappings = codes "8080:80";
  containers = (codes "c1", codes "nginx") ∷ (codes "c2", codes "cache") ∷ [];
  volumes = (codes "data", codes "/dev/sdb") ∷ [];
  interfaces = (codes "0", codes "192.168.0.2") ∷ [];
}

abbrev accept_all : Text → Bool
accept_all key = true

load_pod-save_pod_example : load_pod (layout_of web) (save_pod accept_all web []).0 ≡ ok web
unfolding save_pod save_all messages lookup
load_pod-save_pod_example = load_pod-save_pod accept_all web [] refl refl refl (λ h. refl) refl

abbrev saved : Database
saved = (save_pod accept_all web []).0

remove_container-unloadable_example : IsErr (
    load_pod
      (layout_of (remove_container web (codes "c1") (codes "data" ∷ []) saved).0)
      (remove_container web (codes "c1") (codes "data" ∷ []) saved).1)
remove_container-unloadable_example =
    remove_container-unloadable web (codes "c1") (codes "data") (codes "data" ∷ []) saved refl refl
