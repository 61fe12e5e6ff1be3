-- ===== src/Env.antt =====
-- engine/env.go: an environment as a list of `key=value`, with typed access. The parts that encode
-- and decode JSON call encoding/json and are left out.
pub mod Access
pub mod Numbers
pub mod Multi
use hyperd.Prelude.{
  ℕ, Bool, true, false, not, ◌||◌, Option, none, some, List, [], ◌∷◌, ◌++◌, map, length, nat_beq,
  Dict, lookup, insert, ◌==◌, if◌then◌else◌,
}
use hyperd.Prelude.Text.{Text, text_eq, codes}
use hyperd.Prelude.Int.{ℤ, pos}
use hyperd.PortSpec.{to_lower}
use hyperd.Names.{cut, parse_int, if_value}
use hyperd.Services.{decimal}

abbrev pub Env : Type 0
Env = List Text

-- Get: the last value; an entry without "=" is passed over.
abbrev pub or_else : Bool → Text → Text → Text
or_else true v value = v
or_else false v value = value

unfoldable pub get_loop : Text → Text → Env → Text
get_loop key value [] = value
get_loop key value (kv ∷ kvs) =
    let (k, rest) = cut b'=' kv in
    get_loop key (elim rest [ none ↦ value | some v ↦ or_else (k == key) v value ]) kvs

unfoldable pub get : Text → Env → Text
unfolding get_loop
get key env = get_loop key [] env

-- Map; `none` is the panic at an entry without "=".
unfoldable pub map_loop : Env → Dict Text Text → Option (Dict Text Text)
map_loop [] m = some m
map_loop (kv ∷ kvs) m =
    let (k, rest) = cut b'=' kv in elim rest [ none ↦ none | some v ↦ map_loop kvs (insert k v m) ]

unfoldable pub env_map : Env → Option (Dict Text Text)
unfolding map_loop
env_map env = map_loop env []

abbrev pub is_some {ℓ} : {A : Type ℓ} → Option A → Bool
is_some none = false
is_some (some a) = true

unfoldable pub exists : Text → Env → Option Bool
unfolding env_map
exists key env = elim (env_map env) [ none ↦ none | some m ↦ some (is_some (lookup key m)) ]

-- Set
unfoldable pub set : Text → Text → Env → Env
set key value env = env ++ (key ++ b'=' ∷ value) ∷ []

-- strings.Trim(s, " \t")
abbrev pub is_blank : ℕ → Bool
is_blank c = nat_beq c b' ' || nat_beq c 9

abbrev pub trim_left : Text → Text
trim_left [] = []
trim_left (c ∷ cs) = let rest = trim_left cs in if is_blank c then rest else c ∷ cs

abbrev pub unless_blank : ℕ → Text → Text
unless_blank c [] = if is_blank c then [] else c ∷ []
unless_blank c (d ∷ ds) = c ∷ d ∷ ds

abbrev pub trim_right : Text → Text
trim_right [] = []
trim_right (c ∷ cs) = unless_blank c (trim_right cs)

abbrev pub trim : Text → Text
trim s = trim_right (trim_left s)

-- GetBool, SetBool
unfoldable pub get_bool : Text → Env → Bool
unfolding get
get_bool key env =
    let s = to_lower (trim (get key env)) in
    not (
      s == [] || (s == codes "0" || (s == codes "no" || (s == codes "false" || s == codes "none"))))

unfoldable pub set_bool : Text → Bool → Env → Env
unfolding set
set_bool key value env = set key (if value then codes "1" else codes "0") env

-- GetInt64, SetInt64
unfoldable pub get_int64 : Text → Env → ℤ
unfolding get parse_int
get_int64 key env = if_value (parse_int 10 (trim (get key env)))

unfoldable pub set_int64 : Text → ℤ → Env → Env
unfolding set
set_int64 key value env = set key (decimal value) env

-- MultiMap; `none` is a panic, as in Map
abbrev pub values : Option (List Text) → List Text
values none = []
values (some vs) = vs

unfoldable pub multi_loop : Env → Dict Text (List Text) → Option (Dict Text (List Text))
multi_loop [] m = some m
multi_loop (kv ∷ kvs) m =
    let (k, rest) = cut b'=' kv in
    elim rest [ none ↦ none | some v ↦ multi_loop kvs (insert k (values (lookup k m) ++ v ∷ []) m) ]

unfoldable pub multi_map : Env → Option (Dict Text (List Text))
unfolding multi_loop
multi_map env = multi_loop env []

-- InitMultiMap
unfoldable pub set_all : Text → List Text → Env → Env
unfolding set
set_all k [] env = env
set_all k (v ∷ vs) env = set_all k vs (set k v env)

unfoldable pub init_loop : Dict Text (List Text) → Env → Env
unfolding set_all
init_loop [] env = env
init_loop ((k, vs) ∷ m) env = init_loop m (set_all k vs env)

unfoldable pub init_multi_map : Dict Text (List Text) → Env
unfolding init_loop
init_multi_map m = init_loop m []
