-- ===== src/Services.antt =====
-- daemon/pod/servicediscovery.go: the IPVS services of a pod, `Services`. The pod's sandbox runs
-- `ipvsadm`, which is not part of the repository: its state and its three invocations are the
-- record `Ipvs`. A service's port is an int32, printed and compared with zero only.
pub mod Keys
pub mod Commands
use hyperd.Prelude.{
  ℕ, suc, ◌≡◌, ap, refl, ◌↔◌, arith, Bool, true, false, not, ◌&&◌, ◌||◌, Option, none, some, List,
  [], ◌∷◌, ◌++◌, Dict, lookup, insert, Comparable, ◌==◌, ==_iff, nat_beq, nat_eq, if◌then◌else◌,
  Result, ok, err, ◌>>=◌,
}
use hyperd.Prelude.Text.{Text, codes, text_eq, text_beq_iff}
use hyperd.Prelude.Int.{ℤ, pos, negsuc}
use hyperd.Prelude.Decimal.{itoa}
use hyperd.PortSpec.{to_lower}

pub record Host : Type 0 where
  pub host_ip : Text
  pub host_port : ℤ

pub record Service : Type 0 where
  pub service_ip : Text
  pub service_port : ℤ
  pub protocol : Text
  pub hosts : List Host

pub data Error : Type 0 where
  unsupported_protocol missing_ip_or_port conflict vm_failed : Error

-- fmt's %d
abbrev pub decimal : ℤ → Text
decimal (pos n) = itoa n
decimal (negsuc n) = codes "-" ++ itoa (suc n)

abbrev int_beq : ℤ → ℤ → Bool
int_beq (pos a) (pos b) = nat_beq a b
int_beq (negsuc a) (negsuc b) = nat_beq a b
int_beq (pos a) (negsuc b) = false
int_beq (negsuc a) (pos b) = false

int_beq_iff : (a b : ℤ) → (int_beq a b ≡ true) ↔ (a ≡ b)
int_beq_iff (pos a) (pos b) = ground arith
int_beq_iff (negsuc a) (negsuc b) = ground arith
int_beq_iff (pos a) (negsuc b) = ground arith
int_beq_iff (negsuc a) (pos b) = ground arith

-- serviceKey
pub record ServiceKey : Type 0 where
  pub ip : Text
  pub port : ℤ
  pub protocol : Text

abbrev key_beq : ServiceKey → ServiceKey → Bool
key_beq a b = (a.ip == b.ip) && (int_beq a.port b.port && (a.protocol == b.protocol))

pub key_beq_iff : (a b : ServiceKey) → (key_beq a b ≡ true) ↔ (a ≡ b)
key_beq_iff a b =
    ground (arith, ==_iff a.ip b.ip, int_beq_iff a.port b.port, ==_iff a.protocol b.protocol)

instance abbrev pub key_eq : Comparable ServiceKey
key_eq = record { equal = key_beq; equal_iff = key_beq_iff }

abbrev pub key : Service → ServiceKey
key s = record { ip = s.service_ip; port = s.service_port; protocol = s.protocol }

-- A Go `map[serviceKey]bool`, whose index is false on a missing key.
abbrev pub holds : ServiceKey → Dict ServiceKey Bool → Bool
holds k m = elim (lookup k m) [ none ↦ false | some b ↦ b ]

pub data Operation : Type 0 where
  add_op del_op update_op : Operation

abbrev is_nil : Text → Bool
is_nil [] = true
is_nil (x ∷ xs) = false

-- The flag and address part of the command, `sConf`.
abbrev proto_flag : Text → Result Error Text
proto_flag protocol =
    if to_lower protocol == codes "tcp"
    then ok (codes "-t")
    else if to_lower protocol == codes "udp"
    then ok (codes "-u")
    else err unsupported_protocol

abbrev pub address : Text → ℤ → Text
address ip port = ip ++ (codes ":" ++ decimal port)

abbrev host_commands : Text → List Host → Text
host_commands conf [] = []
host_commands conf (b ∷ hosts) =
    codes "-a "
    ++ (conf
        ++ (codes " -r "
            ++ (address b.host_ip b.host_port ++ (codes " -m -w 1\n" ++ host_commands conf hosts))))

-- generateIPVSCmd. The operation is `add` or `del`: `commit` replaces `update`.
unfoldable pub generate_ipvs_cmd : Service → Operation → Result Error Text
unfolding itoa
generate_ipvs_cmd s op = do
  flag ← proto_flag s.protocol
  let conf = flag ++ (codes " " ++ address s.service_ip s.service_port) in
      elim op [
        | del_op ↦ ok (codes "-D " ++ (conf ++ codes "\n"))
        | _ ↦
            if is_nil s.service_ip || int_beq s.service_port (pos 0)
            then err missing_ip_or_port
            else ok (codes "-A " ++ (conf ++ (codes " -s rr\n" ++ host_commands conf s.hosts)))
      ]

-- The loop of `commit` that generates the patch.
unfoldable pub generate_all : List Service → Operation → Result Error Text
unfolding generate_ipvs_cmd
generate_all [] op = ok []
generate_all (s ∷ ss) op = do
  cmd ← generate_ipvs_cmd s op
  rest ← generate_all ss op
  ok (cmd ++ rest)

-- commit, up to the call of commitToVm
unfoldable pub patch_of : List Service → Operation → Result Error Text
unfolding generate_all
patch_of ss update_op = do rest ← generate_all ss add_op; ok (codes "-C\n" ++ rest)
patch_of ss op = generate_all ss op

-- `ipvsadm` in the sandbox: the listing, `-C` and `-R`, the latter two with their success.
pub record Ipvs : Type 1 where
  pub W : Type 0
  pub listing : W → Option Text
  pub clear : W → W × Bool
  pub restore : Text → W → W × Bool

-- The loop that fills a `map[serviceKey]bool`.
unfoldable pub mark : List Service → Dict ServiceKey Bool → Dict ServiceKey Bool
mark [] m = m
mark (s ∷ ss) m = mark ss (insert (key s) true m)

-- The loop that looks for a service whose key is already in the map.
unfoldable pub conflicts : List Service → Dict ServiceKey Bool → Bool
conflicts [] m = false
conflicts (s ∷ ss) m =
    let rest = conflicts ss (insert (key s) true m) in if holds (key s) m then true else rest

-- The loop of `del`: the services whose key is in the map, and the others.
unfoldable pub partition : Dict ServiceKey Bool → List Service → List Service × List Service
partition m [] = ([], [])
partition m (s ∷ ss) =
    let (target, remain) = partition m ss in
    if holds (key s) m then (s ∷ target, remain) else (target, s ∷ remain)

module _ (v : Ipvs) where
  open v use {W}

  -- commitToVm
  unfoldable pub commit_to_vm : Text → W → W × Option Error
  commit_to_vm patch w = elim (v.listing w) [
    | none ↦ (w, some vm_failed)
    | some saved ↦
        let (w1, applied) = v.restore patch w in
        let (w2, cleared) = v.clear w1 in
        if applied
        then (w1, none)
        else if cleared
        then ((v.restore saved w2).0, some vm_failed)
        else (w2, some vm_failed)
  ]

  unfoldable pub commit : List Service → Operation → W → W × Option Error
  unfolding commit_to_vm patch_of
  commit ss op w = elim (patch_of ss op) [ err e ↦ (w, some e) | ok patch ↦ commit_to_vm patch w ]

  abbrev pub State : Type 0
  State = List Service × W

  -- The end of each operation: the commit if the pod is running, and the new list.
  unfoldable pub commit_and_set :
      Bool → List Service → Operation → List Service → State → State × Option Error
  unfolding commit
  commit_and_set running ss op new (spec, w) =
      let (w', e) = commit ss op w in
      if not running
      then ((new, w), none)
      else elim e [ some x ↦ ((spec, w'), some x) | none ↦ ((new, w'), none) ]

  unfoldable pub add : Bool → List Service → State → State × Option Error
  unfolding commit_and_set mark conflicts
  add running new_servs (spec, w) =
      if conflicts new_servs (mark spec [])
      then ((spec, w), some conflict)
      else commit_and_set running new_servs add_op (spec ++ new_servs) (spec, w)

  unfoldable pub del : Bool → List Service → State → State × Option Error
  unfolding commit_and_set mark partition
  del running srvs (spec, w) =
      let (target, remain) = partition (mark srvs []) spec in
      commit_and_set running target del_op remain (spec, w)

  unfoldable pub update : Bool → List Service → State → State × Option Error
  unfolding commit_and_set conflicts
  update running srvs (spec, w) =
      if conflicts srvs []
      then ((spec, w), some conflict)
      else commit_and_set running srvs update_op srvs (spec, w)
