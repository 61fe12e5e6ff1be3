-- ===== src/PortSpec/Merge.antt =====
-- types/utils.go: Formalize and MergePortmappings bring mappings into a normal form.
use hyperd.Prelude.{
  ◌≡◌, refl, sym, ap, ◌∙◌, ◌≢◌, inl, inr, Bool, List, [], ◌∷◌, ◌++◌, arith, ok, err, Bool-cases,
  Result-cases, ◌>>=◌, map, filter, filter-append, All, All-append, append-nil, map-append,
}
use hyperd.Prelude.Text.{Text, codes, text_eq, text_beq_iff}
use hyperd.PortSpec.{
  Error, PortMapping, Mapping, Protocol, tcp, udp, ContainerPort, read_port_mapping, to_spec,
  formalize, read_all, has_protocol, of_protocol, merge_read, merge_port_mappings, to_pod_port,
  to_lower, unknown_protocol,
}
use hyperd.PortSpec.RoundTrip.{IsMapping, read_port_mapping-IsMapping, read_port_mapping-to_spec}

-- Formalizing a mapping that is already in the form that `Formalize` returns changes nothing.
pub formalize_idem : (pm pm' : PortMapping) → formalize pm ≡ ok pm' → formalize pm' ≡ ok pm'
unfolding formalize
formalize_idem pm pm' h = elim (Result-cases (read_port_mapping pm)) [
  | inl (m, e) ↦ again m (read_port_mapping-IsMapping pm m e) (shape m e)
  | inr (x, e) ↦ ground arith
]
  where
    shape : (m : Mapping) → read_port_mapping pm ≡ ok m → pm' ≡ to_spec m
    shape m e = ground arith

    again : (m : Mapping) → IsMapping m → pm' ≡ to_spec m → formalize pm' ≡ ok pm'
    again m v e = rw e (ground (arith, read_port_mapping-to_spec m v))

read_all-IsMapping :
    (pms : List PortMapping) (ms : List Mapping) → read_all pms ≡ ok ms → All IsMapping ms
unfolding read_all
read_all-IsMapping [] [] h = tt
read_all-IsMapping [] (m ∷ ms) h = ground arith
read_all-IsMapping (pm ∷ pms) [] h = ground arith
read_all-IsMapping (pm ∷ pms) (m ∷ ms) h =
    (read_port_mapping-IsMapping pm m (ground arith), read_all-IsMapping pms ms (ground arith))

read_all-to_spec : (ms : List Mapping) → All IsMapping ms → read_all (map to_spec ms) ≡ ok ms
unfolding read_all
read_all-to_spec [] v = refl
read_all-to_spec (m ∷ ms) v =
    ground (arith, read_port_mapping-to_spec m v.0, read_all-to_spec ms v.1)

of_protocol-filter :
    (p : Protocol) (ms : List Mapping) → of_protocol p ms ≡ map to_spec (filter (has_protocol p) ms)
unfolding of_protocol
of_protocol-filter p [] = refl
of_protocol-filter p (m ∷ ms) = ground (arith, of_protocol-filter p ms)

-- The mappings by protocol, TCP first.
abbrev sorted : List Mapping → List Mapping
sorted ms = filter (has_protocol tcp) ms ++ filter (has_protocol udp) ms

filter_again :
    (p : Protocol) (ms : List Mapping)
    → filter (has_protocol p) (filter (has_protocol p) ms) ≡ filter (has_protocol p) ms
filter_again p [] = refl
filter_again p (m ∷ ms) = ground (arith, filter_again p ms)

filter_tcp-udp : (ms : List Mapping) → filter (has_protocol tcp) (filter (has_protocol udp) ms) ≡ []
filter_tcp-udp [] = refl
filter_tcp-udp (m ∷ ms) = ground (arith, filter_tcp-udp ms)

filter_udp-tcp : (ms : List Mapping) → filter (has_protocol udp) (filter (has_protocol tcp) ms) ≡ []
filter_udp-tcp [] = refl
filter_udp-tcp (m ∷ ms) = ground (arith, filter_udp-tcp ms)

sorted_again : (ms : List Mapping) → sorted (sorted ms) ≡ sorted ms
sorted_again ms =
    rw
      (
        filter-append (has_protocol tcp) (filter (has_protocol tcp) ms)
            (filter (has_protocol udp) ms),
        filter-append (has_protocol udp) (filter (has_protocol tcp) ms)
            (filter (has_protocol udp) ms),
        filter_again tcp ms,
        filter_again udp ms,
        filter_tcp-udp ms,
        filter_udp-tcp ms,
        append-nil,
      )
      refl

All-filter :
    (f : Mapping → Bool) (ms : List Mapping) → All IsMapping ms → All IsMapping (filter f ms)
All-filter f [] v = tt
All-filter f (m ∷ ms) v = elim (Bool-cases (f m)) [
  | inl e ↦ rw e (v.0, All-filter f ms v.1)
  | inr e ↦ rw e (All-filter f ms v.1)
]

merged : (ms : List Mapping) → of_protocol tcp ms ++ of_protocol udp ms ≡ map to_spec (sorted ms)
merged ms =
    rw (of_protocol-filter tcp ms, of_protocol-filter udp ms)
      (sym (map-append to_spec (filter (has_protocol tcp) ms) (filter (has_protocol udp) ms)))

merge_read-sorted :
    (pms : List PortMapping) (ms : List Mapping)
    → read_all pms ≡ ok ms
    → merge_read pms ≡ ok (map to_spec (sorted ms))
unfolding merge_read
merge_read-sorted pms ms e = rw (e, ◌>>=◌) (ap ok (merged ms))

-- Merging the port mappings of a pod brings them into a normal form: what is merged once, with
-- no port left in a container's spec, is unchanged when it is merged again, as when a pod is
-- loaded after a restart.
pub merge_read_idem :
    (pms pms' : List PortMapping) → merge_read pms ≡ ok pms' → merge_read pms' ≡ ok pms'
merge_read_idem pms pms' h = elim (Result-cases (read_all pms)) [
  | inl (ms, e) ↦ normal ms (read_all-IsMapping pms ms e) (merge_read-sorted pms ms e)
  | inr (x, e) ↦ refused x e
]
  where
    refused : (x : Error) → read_all pms ≡ err x → merge_read pms' ≡ ok pms'
    refused x e = unfold merge_read in ground (arith, e)

    normal :
        (ms : List Mapping)
        → All IsMapping ms
        → merge_read pms ≡ ok (map to_spec (sorted ms))
        → merge_read pms' ≡ ok pms'
    normal ms v e =
        let same : pms' ≡ map to_spec (sorted ms) = ground (arith, e) in
        let whole : All IsMapping (sorted ms) =
          All-append IsMapping (filter (has_protocol tcp) ms) (filter (has_protocol udp) ms)
            (All-filter (has_protocol tcp) ms v) (All-filter (has_protocol udp) ms v) in
        rw same (
          merge_read-sorted (map to_spec (sorted ms)) (sorted ms)
            (read_all-to_spec (sorted ms) whole)
          ∙ ap (λ l. ok (map to_spec l)) (sorted_again ms))

to_lower-ne-nil : (s : Text) → s ≢ [] → to_lower s ≢ []
to_lower-ne-nil [] h e = h refl
to_lower-ne-nil (c ∷ cs) h e = ground arith

-- If the first container has a port whose protocol is written out, whichever it is, then merging
-- the port mappings of the pod fails with an unknown protocol.
pub merge_port_mappings_named :
    (pc : ContainerPort) (pcs : List ContainerPort) (cs : List (List ContainerPort))
    (pms : List PortMapping)
    → pc.protocol ≢ []
    → merge_port_mappings ((pc ∷ pcs) ∷ cs) pms ≡ err unknown_protocol
unfolding merge_port_mappings to_pod_port
merge_port_mappings_named pc pcs cs pms h = ground (
  arith,
  to_lower-ne-nil pc.protocol h,
  text_beq_iff (to_lower pc.protocol) [],
  text_beq_iff (to_lower pc.protocol) (codes "tcp"),
  text_beq_iff (to_lower pc.protocol) (codes "udp"),
)
