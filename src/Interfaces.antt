-- ===== src/Interfaces.antt =====
-- daemon/pod/networks.go and the network part of daemon/pod/provision.go: the ids of a pod's
-- interfaces (initResources), and their addresses (prepareResources). What the network package
-- answers to each allocation is a list; what is released is the result.
pub mod Ids
pub mod Addresses
use hyperd.Prelude.{
  ℕ, zero, suc, ◌+◌, Bool, true, false, not, ◌&&◌, ◌||◌, Option, none, some, List, [], ◌∷◌, ◌++◌,
  Dict, lookup, insert, if◌then◌else◌,
}
use hyperd.Prelude.Text.{Text, text_eq}
use hyperd.Prelude.Decimal.{itoa}

pub data Error : Type 0 where
  bridge_without_ip no_address : Error

-- Interface: of the spec the id, the address and the bridge; of the description the address.
pub record Interface : Type 0 where
  pub id : Text
  pub ip : Text
  pub bridge : Text
  pub descript : Option Text

abbrev pub is_nil : Text → Bool
is_nil [] = true
is_nil (c ∷ cs) = false

-- initResources: the interfaces that have an id.
unfoldable pub with_ids : List Interface → Dict Text Interface → Dict Text Interface
with_ids [] m = m
with_ids (i ∷ is) m = if is_nil i.id then with_ids is m else with_ids is (insert i.id i m)

abbrev pub is_some {ℓ} : {A : Type ℓ} → Option A → Bool
is_some none = false
is_some (some a) = true

-- The inner loop: the next number whose decimal is no id; `none` means that the fuel ran out.
unfoldable pub next_id : ℕ → ℕ → Dict Text Interface → Option ℕ
unfolding itoa
next_id zero idx m = none
next_id (suc fuel) idx m =
    let rest = next_id fuel (idx + 1) m in
    if is_some (lookup (itoa (idx + 1)) m) then rest else some (idx + 1)

abbrev pub size : Dict Text Interface → ℕ
size [] = 0
size (e ∷ m) = suc (size m)

-- The loop over the interfaces without an id; one round more than there are ids is enough.
unfoldable pub number : ℕ → List Interface → Dict Text Interface → Option (Dict Text Interface)
unfolding next_id
number idx [] m = some m
number idx (i ∷ is) m = elim (next_id (size m + 1) idx m) [
  | none ↦ none
  | some n ↦ number n is (insert (itoa n) (record i { id = itoa n }) m)
]

abbrev pub without_ids : List Interface → List Interface
without_ids [] = []
without_ids (i ∷ is) = let rest = without_ids is in if is_nil i.id then i ∷ rest else rest

-- The interface that a pod without any gets.
abbrev pub or_default : List Interface → List Interface
or_default [] = record { id = []; ip = []; bridge = []; descript = none } ∷ []
or_default (i ∷ is) = i ∷ is

-- initResources, its interfaces
unfoldable pub init_interfaces : List Interface → Option (Dict Text Interface)
unfolding with_ids number
init_interfaces is = let specs = or_default is in number 0 (without_ids specs) (with_ids specs [])

-- The answers of network.AllocateAddr, in the order of the calls; no answer is a failure.
abbrev pub next_answer : List (Option Text) → Option Text
next_answer [] = none
next_answer (a ∷ as') = a

abbrev pub later_answers : List (Option Text) → List (Option Text)
later_answers [] = []
later_answers (a ∷ as') = as'

-- prepare: the interface, the answers left and the error
unfoldable pub prepare :
    Interface → List (Option Text) → Interface × List (Option Text) × Option Error
prepare i answers =
    if is_nil i.ip && not (is_nil i.bridge)
    then (i, answers, some bridge_without_ip)
    else if is_nil i.ip
    then elim (next_answer answers) [
      | none ↦ (i, later_answers answers, some no_address)
      | some a ↦ (record i { descript = some a }, later_answers answers, none)
    ]
    else (record i { descript = some i.ip }, answers, none)

-- cleanup: the address that is released, if one is
unfoldable pub cleanup : Interface → List Text
cleanup i = elim i.descript [
  | none ↦ []
  | some a ↦ if not (is_nil i.ip) || is_nil a then [] else a ∷ []
]

unfoldable pub cleanup_all : List Interface → List Text
unfolding cleanup
cleanup_all [] = []
cleanup_all (i ∷ is) = cleanup i ++ cleanup_all is

-- The loop of prepareResources.
unfoldable pub prepare_all : List Interface → List (Option Text) → List Interface × Option Error
unfolding prepare
prepare_all [] answers = ([], none)
prepare_all (i ∷ is) answers =
    let (j, left, e) = prepare i answers in
    let (js, e') = prepare_all is left in elim e [ some x ↦ (j ∷ is, some x) | none ↦ (j ∷ js, e') ]

-- prepareResources, its interfaces: on an error of the loop, or of the port mappings after it
-- (`mapped` false), all of them are cleaned up. The last result is what is released. The pod is
-- alive; its IP, the first of an interface, is left out.
unfoldable pub prepare_interfaces :
    Bool → List Interface → List (Option Text) → List Interface × Bool × List Text
unfolding prepare_all cleanup_all
prepare_interfaces mapped is answers =
    let (js, e) = prepare_all is answers in
    if not (is_some e) && mapped then (js, true, []) else (js, false, cleanup_all js)
