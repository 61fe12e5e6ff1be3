-- ===== src/Tests/Disks.antt =====
-- daemon/storage.go: a volume on the device mapper, created, created again and shared.
use hyperd.Prelude.{
  ℕ, ◌+◌, ◌≡◌, ◌≢◌, refl, arith, true, false, none, List, [], ◌∷◌, ◌++◌, lookup, insert, err,
}
use hyperd.Prelude.Text.{Text, text_eq, codes}
use hyperd.Prelude.Int.{pos}
use hyperd.Store.{Store, key_volume, list_pod_volumes}
use hyperd.Store.Kinds.{has_colon}
use hyperd.Disk.{
  Leveldb, device_name, record_of, created, file_exists, Volume, made, create_volume, finish,
  remove_volume, not_found, Answer,
}
use hyperd.Disk.Sharing.{
  New, create_volume_again, create_volume_shared, remove_volume-create_volume,
}

abbrev sum : Text → Text
sum [] = []
sum (c ∷ cs) = (c + 100) ∷ sum cs

sum_lem : (t : Text) → has_colon (sum t) ≡ false
sum_lem [] = refl
sum_lem (c ∷ cs) = ground (arith, sum_lem cs)

abbrev disk : Leveldb
disk = record { deletes = λ k. true; puts = λ k. true }

abbrev volume : Text → Volume
volume name = record { name = name; source = []; format = []; fstype = codes "xfs" }

abbrev web2 : Text
web2 = codes "web" ++ codes "2"

abbrev device : Text
device = device_name sum web2 (codes "data")

abbrev rounds : List (ℕ × Answer)
rounds = (41, file_exists) ∷ (6, created) ∷ []

abbrev volume_made : Volume
volume_made = record {
  name = codes "data";
  source = codes "/dev/mapper/" ++ device;
  format = codes "raw";
  fstype = codes "xfs";
}

abbrev stored : Store
stored = (key_volume web2 device, record_of device (pos 7)) ∷ []

new : New sum disk web2 (codes "data") []
unfolding list_pod_volumes lookup
new = record { unnamed = tt; absent = refl; writes = refl }

first :
    create_volume sum disk web2 (volume (codes "data")) none rounds []
    ≡ made (pos 7) volume_made stored
unfolding create_volume lookup insert
first = refl

create_volume_again_example :
    create_volume sum disk web2 (volume (codes "data")) none ((9, created) ∷ []) stored
    ≡ finish disk web2 device true none (volume (codes "data")) stored (pos 7)
create_volume_again_example =
    create_volume_again sum disk web2 (volume (codes "data")) [] sum_lem new none rounds (pos 7)
      volume_made stored first none 9 []

create_volume_shared_example :
    create_volume sum disk (codes "web") (volume (codes "2data")) none ((9, created) ∷ []) stored
    ≡ finish disk (codes "web") device true none (volume (codes "2data")) stored (pos 7)
unfolding list_pod_volumes
create_volume_shared_example =
    create_volume_shared sum disk (codes "web") (codes "2") (volume (codes "data")) [] sum_lem new
      tt none rounds (pos 7) volume_made stored first (volume (codes "2data")) refl none 9 []

differ : codes "data" ≢ device
differ e = ground (arith, e)

remove_volume-create_volume_example :
    remove_volume (λ n. true) disk web2 (codes "data") stored ≡ (stored, err not_found)
unfolding lookup
remove_volume-create_volume_example =
    remove_volume-create_volume sum disk (λ n. true) web2 (volume (codes "data")) [] refl differ
      refl none rounds (pos 7) volume_made stored first
