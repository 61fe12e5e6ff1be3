-- ===== src/Services/Commands.antt =====
-- daemon/pod/servicediscovery.go: the patches that `commit` generates.
use hyperd.Prelude.{
  ◌≡◌, refl, Bool, true, false, List, [], ◌∷◌, ◌++◌, arith, Dict, if◌then◌else◌, Result, ok, err,
  ◌>>=◌,
}
use hyperd.Prelude.Text.{Text}
use hyperd.Services.{
  Service, ServiceKey, key, holds, partition, Error, add_op, del_op, proto_flag, generate_ipvs_cmd,
  generate_all, patch_of,
}

-- The command is generated.
abbrev pub Accepted : Result Error Text → Type 0
Accepted r = (c : Text) × (r ≡ ok c)

bind-Accepted :
    (r : Result Error Text) (k : Text → Result Error Text) → Accepted (r >>= k) → Accepted r
bind-Accepted (ok c) k h = (c, refl)
bind-Accepted (err e) k (c, h) = absurd (ground arith)

Accepted-bind :
    (r : Result Error Text) (k : Text → Result Error Text)
    → Accepted r
    → ((c : Text) → Accepted (k c))
    → Accepted (r >>= k)
Accepted-bind (ok c) k a h = h c
Accepted-bind (err e) k (c, a) h = absurd (ground arith)

bind-Accepted_rest :
    (r s : Result Error Text) → Accepted (r >>= (λ c. s >>= (λ d. ok (c ++ d)))) → Accepted s
bind-Accepted_rest (ok c) s h = bind-Accepted s (λ d. ok (c ++ d)) h
bind-Accepted_rest (err e) s (c, h) = absurd (ground arith)

generate_ipvs_cmd-del :
    (s : Service) → Accepted (generate_ipvs_cmd s add_op) → Accepted (generate_ipvs_cmd s del_op)
unfolding generate_ipvs_cmd
generate_ipvs_cmd-del s h =
    Accepted-bind (proto_flag s.protocol) _ (bind-Accepted (proto_flag s.protocol) _ h)
      (λ flag. (_, refl))

generate_all-partition :
    (m : Dict ServiceKey Bool) (ss : List Service)
    → Accepted (generate_all ss add_op)
    → Accepted (generate_all (partition m ss).0 del_op)
unfolding generate_all partition
generate_all-partition m [] h = ([], refl)
generate_all-partition m (s ∷ ss) h =
    let rest =
      generate_all-partition m ss
        (bind-Accepted_rest (generate_ipvs_cmd s add_op) (generate_all ss add_op) h) in
    of_test (holds (key s) m) rest
  where
    of_test :
        (b : Bool)
        → Accepted (generate_all (partition m ss).0 del_op)
        → (let parts : List Service × List Service =
              if b
              then (s ∷ (partition m ss).0, (partition m ss).1)
              else ((partition m ss).0, s ∷ (partition m ss).1) in
            Accepted (generate_all parts.0 del_op))
    of_test true rest =
        Accepted-bind (generate_ipvs_cmd s del_op) _
          (generate_ipvs_cmd-del s (bind-Accepted (generate_ipvs_cmd s add_op) _ h))
          (λ c. Accepted-bind (generate_all (partition m ss).0 del_op) _ rest (λ d. (c ++ d, refl)))
    of_test false rest = rest

-- The services that a deletion selects, by any set of keys, among services whose patch `commit`
-- could generate for an addition have a patch for the deletion: only ipvsadm can refuse it.
pub patch_of-del :
    (m : Dict ServiceKey Bool) (ss : List Service) (patch : Text)
    → patch_of ss add_op ≡ ok patch
    → (deletion : Text) × (patch_of (partition m ss).0 del_op ≡ ok deletion)
unfolding patch_of
patch_of-del m ss patch h = generate_all-partition m ss (patch, h)
