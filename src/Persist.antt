-- ===== src/Persist.antt =====
-- daemon/pod/persist.go: the messages that keep a pod in the daemon's database. The database is a
-- map from keys to messages; what a message says of the pod's spec, sandbox, services, port
-- mappings, containers, volumes and interfaces is a text, as protobuf encodes it, and the layout
-- is a record. Whether the database accepts a write of a key is the parameter `accepts`.
pub mod Stored
pub mod RoundTrip
pub mod Removal
pub mod Erase
pub mod Undo
use hyperd.Prelude.{
  any, ◌==◌, any, ◌==◌, Bool, true, false, Option, none, some, List, [], ◌∷◌, ◌++◌, map, Dict,
  lookup, insert, delete, if◌then◌else◌, Result, ok, err, ◌>>=◌,
}
use hyperd.Prelude.Text.{Text, codes, text_eq}

-- PersistPodLayout
pub record Layout : Type 0 where
  pub id : Text
  pub containers : List Text
  pub volumes : List Text
  pub interfaces : List Text

pub data Message : Type 0 where
  info : Text → Message
  layout : Layout → Message

pub data Error : Type 0 where
  not_found undecodable : Error

abbrev pub Database : Type 0
Database = Dict Text Message

-- The parts of an `XPod` that are kept; `sandbox` is what saveSandbox dumps, if the pod's status
-- is none of those of a stopped pod.
pub record PodRecord : Type 0 where
  pub id : Text
  pub spec : Text
  pub sandbox : Option Text
  pub meta : Text
  pub port_mappings : Text
  pub containers : Dict Text Text
  pub volumes : Dict Text Text
  pub interfaces : Dict Text Text

-- The keys, LAYOUT_KEY_FMT to IF_KEY_FMT.
abbrev pub layout_key : Text → Text
layout_key pod = codes "PL-" ++ pod

abbrev pub sandbox_key : Text → Text
sandbox_key pod = codes "SB-" ++ pod

abbrev pub spec_key : Text → Text
spec_key pod = codes "PS-" ++ pod

abbrev pub meta_key : Text → Text
meta_key pod = codes "PM-" ++ pod

abbrev pub port_mappings_key : Text → Text
port_mappings_key pod = codes "PP-" ++ pod

abbrev pub container_key : Text → Text
container_key id = codes "CX-" ++ id

abbrev pub volume_key : Text → Text → Text
volume_key pod name = codes "VX-" ++ (pod ++ b'-' ∷ name)

abbrev pub interface_key : Text → Text → Text
interface_key pod id = codes "IF-" ++ (pod ++ b'-' ∷ id)

abbrev pub names : Dict Text Text → List Text
names m = map (λ e. e.0) m

-- The layout that savePod and saveLayout write.
abbrev pub layout_of : PodRecord → Layout
layout_of p = record {
  id = p.id;
  containers = names p.containers;
  volumes = names p.volumes;
  interfaces = names p.interfaces;
}

-- The messages of one map of the pod.
abbrev pub entries : (Text → Text) → Dict Text Text → List (Text × Message)
entries key [] = []
entries key ((k, v) ∷ m) = (key k, info v) ∷ entries key m

-- saveSandbox
abbrev pub sandbox_entry : PodRecord → List (Text × Message)
sandbox_entry p = elim p.sandbox [ none ↦ [] | some s ↦ (sandbox_key p.id, info s) ∷ [] ]

-- The messages that savePod writes, in their order.
unfoldable pub messages : PodRecord → List (Text × Message)
messages p =
    ((spec_key p.id, info p.spec) ∷ [])
    ++ (sandbox_entry p
        ++ (((meta_key p.id, info p.meta) ∷ (port_mappings_key p.id, info p.port_mappings) ∷ [])
            ++ (entries container_key p.containers
                ++ (entries (volume_key p.id) p.volumes
                    ++ (entries (interface_key p.id) p.interfaces
                        ++ ((layout_key p.id, layout (layout_of p)) ∷ []))))))

-- saveMessage on each of the messages up to the first that the database refuses, and whether it
-- refuses none.
unfoldable pub save_all : (Text → Bool) → List (Text × Message) → Database → Database × Bool
save_all accepts [] db = (db, true)
save_all accepts ((k, m) ∷ es) db =
    let rest = save_all accepts es (insert k m db) in if accepts k then rest else (db, false)

unfoldable pub save_pod : (Text → Bool) → PodRecord → Database → Database × Bool
unfolding save_all messages
save_pod accepts p db = save_all accepts (messages p) db

-- loadMessage
unfoldable pub load_info : Text → Database → Result Error Text
load_info key db = elim (lookup key db) [
  | none ↦ err not_found
  | some m ↦ elim m [ info t ↦ ok t | layout l ↦ err undecodable ]
]

-- The loops of LoadXPod over the layout: loadContainer, loadVolume or loadInterface by name.
unfoldable pub load_each : (Text → Text) → List Text → Database → Result Error (Dict Text Text)
unfolding load_info
load_each key [] db = ok []
load_each key (k ∷ ks) db = do
  v ← load_info (key k) db
  rest ← load_each key ks db
  ok ((k, v) ∷ rest)

-- loadSandbox, whose "not found" is a stopped pod
unfoldable pub load_sandbox : Text → Database → Result Error (Option Text)
unfolding load_info
load_sandbox pod db = elim (load_info (sandbox_key pod) db) [
  | ok s ↦ ok (some s)
  | err e ↦ elim e [ not_found ↦ ok none | undecodable ↦ err undecodable ]
]

-- LoadXPod, what it reads
unfoldable pub load_pod : Layout → Database → Result Error PodRecord
unfolding load_info load_each load_sandbox
load_pod l db = do
  spec ← load_info (spec_key l.id) db
  interfaces ← load_each (interface_key l.id) l.interfaces db
  volumes ← load_each (volume_key l.id) l.volumes db
  containers ← load_each container_key l.containers db
  sandbox ← load_sandbox l.id db
  meta ← load_info (meta_key l.id) db
  port_mappings ← load_info (port_mappings_key l.id) db
  ok (record {
    id = l.id;
    spec = spec;
    sandbox = sandbox;
    meta = meta;
    port_mappings = port_mappings;
    containers = containers;
    volumes = volumes;
    interfaces = interfaces;
  })

-- RemoveContainer, what it does to the database once the container is gone from the pod: the
-- messages of the unplugged volumes and of the container are removed, and the layout and the
-- sandbox saved. The pod's map of volumes stays as it is.
unfoldable pub remove_volumes : PodRecord → List Text → Database → Database
remove_volumes p [] db = db
remove_volumes p (v ∷ vs) db =
    remove_volumes p vs
      (if any (λ w. w == v) (names p.volumes) then delete (volume_key p.id v) db else db)

unfoldable pub remove_container : PodRecord → Text → List Text → Database → PodRecord × Database
unfolding remove_volumes
remove_container p id unplugged db =
    let p' = record p { containers = delete id p.containers } in
    let db1 = delete (container_key id) (remove_volumes p unplugged db) in
    let db2 = insert (layout_key p.id) (layout (layout_of p')) db1 in
    (p', elim p.sandbox [ none ↦ db2 | some s ↦ insert (sandbox_key p.id) (info s) db2 ])
