-- ===== src/Buffer.antt =====
-- daemon/buffer/buffer.go and daemon/pod/buffer.go: containers that are created in the background,
-- by at most so many goroutines and from a channel of bounded length. The state holds, besides the
-- fields of the code, the goroutines: those of callers that are about to hand their container
-- over, and the handlers. Each critical section is a step.
pub mod Invariant
use hyperd.Prelude.{
  ℕ, zero, suc, ◌+◌, ◌-◌, String, Bool, true, false, not, ◌&&◌, Option, none, some, List, [], ◌∷◌,
  ◌++◌, length, filter, ◌==◌, string_eq, nat_beq, ltb, if◌then◌else◌,
}
use hyperd.Registry.{
  PodList, reserve_container_name, reserve_container, release_container, change_container_id,
}

-- ContainerBuffer: the provisional id, the pod and the name of the container's spec.
pub record Request : Type 0 where
  pub id : String
  pub pod : String
  pub name : String

abbrev pub same_key : Request → Request → Bool
same_key a b = (a.id == b.id) && (a.pod == b.pod)

-- A goroutine of containerHandler: it creates a container, or has done so and is about to take the
-- next.
pub data Handler : Type 0 where
  creating : Request → Handler
  idle : Handler

pub record Buffer : Type 0 where
  pub goroutines_limit : ℕ
  pub capacity : ℕ
  pub channel : List Request
  pub container_buffers : List Request
  pub registry : PodList
  pub arriving : List Request
  pub handlers : List Handler

-- NewBuffer, whose result is nil without goroutines
unfoldable pub new_buffer : ℕ → ℕ → PodList → Option Buffer
new_buffer goroutines_max channel_size pl =
    if nat_beq goroutines_max 0
    then none
    else some (record {
      goroutines_limit = goroutines_max;
      capacity = if nat_beq channel_size 0 then 1024 else channel_size;
      channel = [];
      container_buffers = [];
      registry = pl;
      arriving = [];
      handlers = [];
    })

-- RemoveContainerBuffer
unfoldable pub remove_container_buffer : Request → Buffer → Buffer
remove_container_buffer r b = record b {
  container_buffers = filter (λ c. not (same_key c r)) b.container_buffers;
}

-- RemoveContainerBufferAll
unfoldable pub remove_container_buffer_all : Request → Buffer → Buffer
unfolding remove_container_buffer release_container
remove_container_buffer_all r b =
    remove_container_buffer r (record b { registry = release_container r.id r.name b.registry })

-- AddContainerBuffer: on success the caller is about to hand the container over.
unfoldable pub add_container_buffer : Request → Buffer → Buffer
unfolding remove_container_buffer reserve_container
add_container_buffer r b =
    let added = record (remove_container_buffer r b) {
      container_buffers = r ∷ filter (λ c. not (same_key c r)) b.container_buffers;
    } in
    let (pl, e) = reserve_container r.id r.name r.pod b.registry in
    elim e [
      | some x ↦ remove_container_buffer r added
      | none ↦ record added { registry = pl; arriving = r ∷ b.arriving }
    ]

-- CreateContainerInPod up to the lock, in a pod that is alive or not
unfoldable pub arrive : Bool → Request → Buffer → Buffer
unfolding reserve_container_name add_container_buffer
arrive alive r b =
    let (pl, e) = reserve_container_name r.name r.pod b.registry in
    if not alive
    then b
    else elim e [ some x ↦ b | none ↦ add_container_buffer r (record b { registry = pl }) ]

-- The goroutine at a position, and the others.
abbrev pub cons_rest {ℓ} : {A : Type ℓ} → A → Option (A × List A) → Option (A × List A)
cons_rest x none = none
cons_rest x (some (y, ys)) = some (y, x ∷ ys)

abbrev pub take_out {ℓ} : {A : Type ℓ} → ℕ → List A → Option (A × List A)
take_out n [] = none
take_out zero (x ∷ xs) = some (x, xs)
take_out (suc n) (x ∷ xs) = cons_rest x (take_out n xs)

-- CreateContainerInPod under the lock: a new handler, the channel, or a drop.
unfoldable pub hand_over : Request → Buffer → Buffer
unfolding remove_container_buffer_all
hand_over r b =
    if not (nat_beq b.goroutines_limit 0)
    then record b { goroutines_limit = b.goroutines_limit - 1; handlers = creating r ∷ b.handlers }
    else if ltb (length b.channel) b.capacity
    then record b { channel = b.channel ++ r ∷ [] }
    else remove_container_buffer_all r b

-- containerHandler: DoContainerCreate has returned, with the new id or an error. On success it has
-- changed the id in the registry.
unfoldable pub created : Request → Option String → Buffer → Buffer
unfolding remove_container_buffer remove_container_buffer_all change_container_id
created r none b = remove_container_buffer_all r b
created r (some id) b =
    remove_container_buffer r
      (record b { registry = (change_container_id r.id id r.pod b.registry).0 })

-- containerHandler under the lock: the next container, or the end of the goroutine
unfoldable pub take_next : Buffer → Buffer
take_next b = elim b.channel [
  | [] ↦ record b { goroutines_limit = b.goroutines_limit + 1 }
  | r ∷ rs ↦ record b { channel = rs; handlers = creating r ∷ b.handlers }
]

pub data Action : Type 0 where
  arrives : Bool → Request → Action
  hands_over : ℕ → Action
  finishes : ℕ → Option String → Action
  goes_on : ℕ → Action

abbrev finish : Option (Handler × List Handler) → Option String → Buffer → Buffer
finish none result b = b
finish (some (idle, hs)) result b = b
finish (some (creating r, hs)) result b = created r result (record b { handlers = idle ∷ hs })

abbrev go_on : Option (Handler × List Handler) → Buffer → Buffer
go_on none b = b
go_on (some (creating r, hs)) b = b
go_on (some (idle, hs)) b = take_next (record b { handlers = hs })

abbrev enter : Option (Request × List Request) → Buffer → Buffer
enter none b = b
enter (some (r, rs)) b = hand_over r (record b { arriving = rs })

unfoldable pub step : Action → Buffer → Buffer
unfolding arrive hand_over created take_next
step (arrives alive r) b = arrive alive r b
step (hands_over n) b = enter (take_out n b.arriving) b
step (finishes n result) b = finish (take_out n b.handlers) result b
step (goes_on n) b = go_on (take_out n b.handlers) b

unfoldable pub run : List Action → Buffer → Buffer
unfolding step
run [] b = b
run (a ∷ acts) b = run acts (step a b)
