-- ===== src/Tests/Listings.antt =====
-- daemon/list.go on two pods, one with containers that are being created.
use hyperd.Prelude.{refl, some, [], ◌∷◌, Dict, All}
use hyperd.Prelude.Text.{Text, text_eq, codes}
use hyperd.Registry.{running}
use hyperd.Container.{new_container_status}
use hyperd.Listing.{Listed, Pod, snapshot_pod_list, find}
use hyperd.Listing.Snapshot.{Selected, snapshot_pod_list-Selected}

abbrev container : Text → Listed
container id = record { id = id; name = codes "nginx"; status = new_container_status }

abbrev web : Pod
web = record {
  id = codes "web";
  name = codes "web";
  status = running;
  sandbox = some (codes "vm-1");
  containers = container (codes "c1") ∷ container (codes "c2") ∷ [];
  buffers = (codes "tmp1", codes "cache") ∷ [];
}

abbrev store : Pod
store = record web { id = codes "store"; sandbox = some (codes "vm-2") }

abbrev pods : Dict Text Pod
pods = (codes "web", web) ∷ (codes "store", store) ∷ []

snapshot_pod_list-Selected_example : All (Selected [] (codes "vm-2") pods) (store ∷ [])
unfolding snapshot_pod_list find
snapshot_pod_list-Selected_example =
    snapshot_pod_list-Selected [] (codes "vm-2") pods (store ∷ []) refl
