-- ===== src/Tests/Legacy.antt =====
-- daemon/pod/migration.go: a legacy pod with a volume, migrated once and again.
use hyperd.Prelude.{
  ◌≡◌, refl, subst, ap, true, false, Option, none, some, List, [], ◌∷◌, ◌++◌, All, lookup, insert,
  delete, ok,
}
use hyperd.Prelude.Text.{Text, text_eq, codes}
use hyperd.Store.{Store, Disk, has_prefix, key_pod, key_p2c, key_volume, legacy_get_all_pods}
use hyperd.Migration.{Outside, Spec, Volume, named, migrate_pod, migrate}
use hyperd.Migration.Purge.{Foreign}
use hyperd.Migration.Again.{migrate-migrate}
use hyperd.Migration.Volumes.{volume_prefix}
use hyperd.Migration.Moved.{migrate_pod-moved}

abbrev disk : Disk
disk = record { deletes = λ k. true; puts = λ k. true }

abbrev data_volume : Volume
data_volume = record { name = codes "data"; source = codes "/var/pod-1/data"; format = [] }

abbrev spec : Spec
spec = record { id = codes "web"; containers = []; volumes = data_volume ∷ [] }

abbrev messages : Spec → Option (List (Text × Text))
messages s = some ((codes "PL-" ++ s.id, codes "layout") ∷ [])

abbrev out : Outside
out = record {
  decode = λ t. some spec;
  drivers = λ t. some (some (some (codes "raw") ∷ []));
  inspect = λ id. named (codes "/nginx");
  messages = messages;
  sandbox_info = λ vm info. info;
}

abbrev db : Store
db =
    (key_pod (codes "pod-1"), codes "spec")
    ∷ (key_p2c (codes "pod-1"), [])
    ∷ (key_volume (codes "pod-1") (codes "data"), codes "hyper:7")
    ∷ []

abbrev listed : Option (List (Text × Text)) → List (Text × Text)
listed none = []
listed (some ms) = ms

messages-Foreign : (s : Spec) (ms : List (Text × Text)) → messages s ≡ some ms → Foreign ms
messages-Foreign s ms e = subst Foreign (ap listed e) (refl, tt)

migrate-migrate_example :
    (legacy_get_all_pods (migrate out disk db).0 ≡ [])
    × (migrate out disk (migrate out disk db).0 ≡ ((migrate out disk db).0, none))
unfolding migrate lookup insert
migrate-migrate_example = migrate-migrate out disk db messages-Foreign (λ k. refl) refl

-- What the migration of the pod leaves.
abbrev migrated : Store
migrated =
    (key_volume (codes "web") (codes "data"), codes "hyper:7")
    ∷ (codes "PL-web", codes "layout")
    ∷ []

abbrev migrated_spec : Spec
migrated_spec = record spec {
  volumes =
      record { name = codes "data"; source = codes "/var/web/data"; format = codes "raw" } ∷ [];
}

messages-others :
    (s : Spec) (ms : List (Text × Text))
    → messages s ≡ some ms
    → All (λ m. has_prefix volume_prefix m.0 ≡ false) ms
messages-others s ms e =
    subst (λ (l : List (Text × Text)). All (λ m. has_prefix volume_prefix m.0 ≡ false) l)
      (ap listed e) (refl, tt)

migrated_lem : migrate_pod out disk (codes "pod-1") (codes "spec") db ≡ (migrated, ok migrated_spec)
unfolding migrate_pod lookup insert delete
migrated_lem = refl

migrate_pod-moved_example :
    lookup (key_volume (codes "web") (codes "data")) migrated ≡ some (codes "hyper:7")
unfolding lookup
migrate_pod-moved_example =
    migrate_pod-moved out disk (codes "pod-1") (codes "spec") spec (codes "data") (codes "hyper:7")
      db migrated migrated_spec refl (λ x. refl) messages-others refl refl migrated_lem
