-- ===== src/Tests/Volumes.antt =====
-- daemon/pod/volume.go on a volume with two waiting containers.
use hyperd.Prelude.{some, List, [], ◌∷◌}
use hyperd.Volume.{Descript, Volume, new_volume, Groups}
use hyperd.Volume.Notify.{Action, on_subscribe, on_begin, on_mount, on_inserted}

abbrev disk : Descript
disk = record { fstype = "ext4"; source = "/dev/sdb" }

abbrev data_volume : Volume
data_volume = new_volume "data"

abbrev groups : Groups
groups g = record { counter = 2; errs = [] }

abbrev actions : List Action
actions = on_subscribe 7 ∷ on_begin ∷ on_subscribe 7 ∷ on_mount (some disk) ∷ on_inserted ∷ []

abbrev awaited : Volume
awaited = record data_volume { insert_subscribers = 7 ∷ 8 ∷ [] }
