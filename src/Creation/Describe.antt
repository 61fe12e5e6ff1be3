-- ===== src/Creation/Describe.antt =====
-- daemon/pod/container.go: describeContainer.
use hyperd.Prelude.{
  ◌-◌, false, ◌&&◌, Option, none, some, List, [], ◌∷◌, map, Dict, insert, leb, ◌==◌, if◌then◌else◌,
  Result, ok, err, ◌>>=◌,
}
use hyperd.Prelude.Text.{Text, text_eq, codes}
use hyperd.PortSpec.{to_lower}
use hyperd.Names.{cut, split}
use hyperd.PodSpec.{is_nil}
use hyperd.Creation.Spec.{
  Ulimit, UserGroup, UserContainer, ContainerJson, ContainerDescription, Error, no_mount_id,
  bad_user,
}

-- strings.ToUpper over ASCII
abbrev to_upper : Text → Text
to_upper [] = []
to_upper (c ∷ cs) = (if leb b'a' c && leb c b'z' then c - 32 else c) ∷ to_upper cs

abbrev pub or_text : Text → Text → Text
or_text [] default = default
or_text (c ∷ cs) default = c ∷ cs

abbrev without_sig : Text → Text
without_sig (s ∷ i ∷ g ∷ rest) = if (s ∷ i ∷ g ∷ []) == codes "SIG" then rest else s ∷ i ∷ g ∷ rest
without_sig s = s

-- describeContainer, the stop signal: the spec's or else the engine's, without "SIG", or TERM
unfoldable pub stop_signal_of : Text → Text → Text
stop_signal_of wanted configured =
    or_text (without_sig (or_text wanted (to_upper configured))) (codes "TERM")

abbrev pub only_user : Text → UserGroup
only_user u = record { user = u; group = []; additional_groups = [] }

-- describeContainer, the engine's user
abbrev pub split_user : Text → List Text → Result Error (Option UserGroup)
split_user configured (u ∷ g ∷ []) =
    ok (some (record { user = u; group = g; additional_groups = [] }))
split_user configured (u ∷ g ∷ x ∷ xs) = err bad_user
split_user configured us = ok (some (only_user configured))

abbrev pub engine_user : Text → Result Error (Option UserGroup)
engine_user [] = ok none
engine_user (c ∷ cs) = split_user (c ∷ cs) (split b':' (c ∷ cs))

-- describeContainer, the user: the spec's if it has a name, or else the engine's
unfoldable pub user_of : Option UserGroup → Text → Result Error (Option UserGroup)
user_of none configured = engine_user configured
user_of (some u) configured = if is_nil u.user then engine_user configured else ok (some u)

abbrev pub or_empty : Option Text → Text
or_empty none = []
or_empty (some t) = t

-- describeContainer, the loop over the environment
unfoldable pub envs_of : List Text → Dict Text Text → Dict Text Text
envs_of [] m = m
envs_of (v ∷ vs) m = let (k, t) = cut b'=' v in envs_of vs (insert k (or_empty t) m)

abbrev pub rlimit : Ulimit → Ulimit
rlimit l = record l { name = to_lower l.name }

-- describeContainer: the description, before its volumes are set
unfoldable pub describe_container :
    UserContainer → ContainerJson → Option Text → Result Error ContainerDescription
unfolding stop_signal_of user_of envs_of
describe_container c json none = err no_mount_id
describe_container c json (some mount_id) = do
  ugi ← user_of c.user json.user
  ok (record {
    id = c.id;
    name = json.name;
    image = json.image;
    labels = c.labels;
    tty = c.tty;
    mount_id = mount_id;
    envs = envs_of json.env [];
    workdir = or_text json.workdir (codes "/");
    path = json.path;
    arguments = json.arguments;
    rlimits = map rlimit c.ulimits;
    stop_signal = stop_signal_of c.stop_signal json.stop_signal;
    ugi = ugi;
    volumes = [];
    initialize = false;
  })
