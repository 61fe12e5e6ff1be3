-- ===== src/Registry/Rename.antt =====
-- daemon/pod/container.go: rename, and the name pattern of utils/utils.go. The engine's
-- ContainerRename is the parameter `engine`: whether it accepts the old and the new name.
use Prim.Native.Char.{code}
use Prim.Native.String.{◌++◌ as str_append}
use hyperd.Prelude.{
  ℕ, String, ◌≡◌, ◌≢◌, Bool, true, false, not, ◌&&◌, ◌||◌, Option, none, some, [], ◌∷◌, arith,
  lookup, insert, delete, lookup-delete_self, ◌==◌, ==_iff, string_eq, lookup-insert, lookup-delete,
  if◌then◌else◌, leb, nat_beq,
}
use mathlib.Core.Option
use hyperd.Prelude.Text.{Text, codes}
use hyperd.Registry.{PodList, Error, reserve_container_name, release_container_name}

-- The character classes of `DockerRestrictedNameChars`.
abbrev is_alnum : ℕ → Bool
is_alnum c =
    (leb b'a' c && leb c b'z') || ((leb b'A' c && leb c b'Z') || (leb b'0' c && leb c b'9'))

abbrev is_name_char : ℕ → Bool
is_name_char c = is_alnum c || (nat_beq c b'_' || (nat_beq c b'.' || nat_beq c b'-'))

abbrev all_name_chars : Text → Bool
all_name_chars [] = true
all_name_chars (c ∷ cs) = is_name_char c && all_name_chars cs

-- `[a-zA-Z0-9][a-zA-Z0-9_.-]+` over a whole text
abbrev restricted : Text → Bool
restricted [] = false
restricted (c ∷ []) = false
restricted (c ∷ d ∷ cs) = is_alnum c && all_name_chars (d ∷ cs)

-- DockerRestrictedNamePattern.MatchString
unfoldable pub is_restricted_name : Text → Bool
is_restricted_name [] = false
is_restricted_name (c ∷ cs) = if nat_beq c b'/' then restricted cs else restricted (c ∷ cs)

-- The fields of a container that `rename` reads and writes; `descript` is the name in the runtime
-- description, if there is one.
pub record Named : Type 0 where
  pub id : String
  pub name : String
  pub descript : Option String

pub data Renaming : Type 0 where
  renamed invalid_name engine_refused panicked : Renaming
  reserve_failed : Error → Renaming

-- `if name[0] == '/' { name = name[1:] }`; indexing the empty name panics.
unfoldable pub strip_slash : String → Option String
strip_slash String.[] = none
strip_slash (String.◌∷◌ c s) = if nat_beq (code c) b'/' then some s else some (String.◌∷◌ c s)

abbrev is_some : Option String → Bool
is_some none = false
is_some (some s) = true

module _ (engine : String → String → Bool) where
  -- `rename` from the reservation of the stripped name on
  rename_reserved : String → Named → String → PodList → Named × PodList × Renaming
  rename_reserved pod c n pl =
      let (pl', r) = reserve_container_name n pod pl in
      elim r [
        | some e ↦ (c, pl', reserve_failed e)
        | none ↦
            if (not (c.id == "") || is_some c.descript) && not (engine c.name n)
            then (c, release_container_name n pl', engine_refused)
            else (
              record c { name = n; descript = Option.map (λ _. str_append "/" n) c.descript },
              release_container_name c.name pl',
              renamed,
            )
      ]

  unfoldable pub rename : String → Named → String → PodList → Named × PodList × Renaming
  unfolding rename_reserved strip_slash is_restricted_name
  rename pod c name pl = elim (strip_slash name) [
    | none ↦ (c, pl, panicked)
    | some n ↦
        if is_restricted_name (codes n) then rename_reserved pod c n pl else (c, pl, invalid_name)
  ]

  -- What a rename that returns no error has done.
  rename-renamed :
      (pod : String) (c : Named) (name n : String) (pl : PodList)
      → strip_slash name ≡ some n
      → (rename pod c name pl).2 ≡ renamed
      → ((rename pod c name pl).0.name ≡ n)
        × ((rename pod c name pl).1.container_names
            ≡ delete c.name (insert n pod pl.container_names))
  unfolding rename reserve_container_name release_container_name
  rename-renamed pod c name n pl e r = ground arith

  -- A rename to another name that returns no error moves the reservation and nothing else: the
  -- container bears the new name without a leading slash, that name is reserved to the pod, the
  -- old name is free, and every other name is reserved as before.
  pub rename_moves :
      (pod : String) (c : Named) (name n : String) (pl : PodList) (k : String)
      → strip_slash name ≡ some n
      → n ≢ c.name
      → (rename pod c name pl).2 ≡ renamed
      → ((rename pod c name pl).0.name ≡ n)
        × (lookup k (rename pod c name pl).1.container_names ≡ (
            if k == n then some pod else if k == c.name then none else lookup k pl.container_names))
  rename_moves pod c name n pl k e ne r =
      let done = rename-renamed pod c name n pl e r in
      (
        done.0,
        rw done.1 (
            ground (
              arith,
              lookup-insert n k pod pl.container_names,
              lookup-delete c.name k (insert n pod pl.container_names),
              ==_iff k n,
              ==_iff n k,
              ==_iff k c.name,
              ==_iff c.name k,
            )),
      )

  -- A rename that does not succeed leaves the container and the registry of names as they were,
  -- if the new name was free before.
  pub rename_fails :
      (pod : String) (c : Named) (name n : String) (pl : PodList) (k : String)
      → strip_slash name ≡ some n
      → lookup n pl.container_names ≡ none
      → (rename pod c name pl).2 ≢ renamed
      → ((rename pod c name pl).0 ≡ c)
        × (lookup k (rename pod c name pl).1.container_names ≡ lookup k pl.container_names)
  unfolding rename reserve_container_name release_container_name
  rename_fails pod c name n pl k e free r = ground (
    arith,
    lookup-insert n k pod pl.container_names,
    lookup-delete n k (insert n pod pl.container_names),
    ==_iff n k,
  )

  -- When a container is renamed to the name that it has, with or without a leading slash, and
  -- this returns no error, then the name that it keeps is no longer reserved to anybody.
  pub rename_same_unregisters :
      (pod : String) (c : Named) (name : String) (pl : PodList)
      → strip_slash name ≡ some c.name
      → (rename pod c name pl).2 ≡ renamed
      → ((rename pod c name pl).0.name ≡ c.name)
        × (lookup c.name (rename pod c name pl).1.container_names ≡ none)
  rename_same_unregisters pod c name pl e r =
      let done = rename-renamed pod c name c.name pl e r in
      (done.0, rw done.1 (lookup-delete_self c.name (insert c.name pod pl.container_names)))

  -- When a pod's container is renamed to the name of another container of the same pod and the
  -- engine refuses the new name, the other container's reservation is gone.
  pub rename_sibling_unregisters :
      (pod : String) (c : Named) (name n : String) (pl : PodList)
      → strip_slash name ≡ some n
      → lookup n pl.container_names ≡ some pod
      → (rename pod c name pl).2 ≡ engine_refused
      → lookup n (rename pod c name pl).1.container_names ≡ none
  unfolding rename reserve_container_name release_container_name
  rename_sibling_unregisters pod c name n pl e held r =
      ground (arith, lookup-delete n n (insert n pod pl.container_names), ==_iff n n)
