-- ===== src/Persist/RoundTrip.antt =====
-- daemon/pod/persist.go: a pod that is saved is loaded back.
use hyperd.Prelude.{
  ◌≡◌, refl, ap, ◌∙◌, arith, Bool, true, false, Option, none, some, List, [], ◌∷◌, ◌++◌, Dict,
  lookup, ◌==◌, All, ok, ==_refl,
}
use hyperd.Prelude.Text.{Text, text_eq}
use hyperd.Persist.{
  Message, info, layout, Database, PodRecord, layout_key, sandbox_key, spec_key, meta_key,
  port_mappings_key, container_key, volume_key, interface_key, names, layout_of, entries,
  sandbox_entry, messages, save_all, save_pod, load_info, load_each, load_sandbox, load_pod,
}
use hyperd.Persist.Stored.{
  final, or_else, final-append, lookup-save_all, distinct, Kept, distinct-Kept, final-entries,
  final-entries_other, container_key-Faithful, volume_key-Faithful, interface_key-Faithful,
}

abbrev of_info : Option Text → Option Message
of_info none = none
of_info (some t) = some (info t)

final-after :
    (j : Text) (es fs : List (Text × Message)) (r : Option Message)
    → final j fs ≡ r
    → final j (es ++ fs) ≡ or_else r (final j es)
final-after j es fs r h = final-append j es fs ∙ ap (λ o. or_else o (final j es)) h

module _ (p : PodRecord) where
  abbrev fixed : List (Text × Message)
  fixed = (meta_key p.id, info p.meta) ∷ (port_mappings_key p.id, info p.port_mappings) ∷ []

  abbrev last : List (Text × Message)
  last = (layout_key p.id, layout (layout_of p)) ∷ []

  abbrev from_interfaces : List (Text × Message)
  from_interfaces = entries (interface_key p.id) p.interfaces ++ last

  abbrev from_volumes : List (Text × Message)
  from_volumes = entries (volume_key p.id) p.volumes ++ from_interfaces

  abbrev from_containers : List (Text × Message)
  from_containers = entries container_key p.containers ++ from_volumes

  abbrev from_fixed : List (Text × Message)
  from_fixed = fixed ++ from_containers

  abbrev from_sandbox : List (Text × Message)
  from_sandbox = sandbox_entry p ++ from_fixed

  -- The last value of a key, block by block.
  final-messages :
      (j : Text)
      → final j (messages p)
        ≡ or_else
            (or_else
              (or_else
                (or_else
                  (or_else
                    (or_else (final j last) (final j (entries (interface_key p.id) p.interfaces)))
                    (final j (entries (volume_key p.id) p.volumes)))
                  (final j (entries container_key p.containers)))
                (final j fixed))
              (final j (sandbox_entry p)))
            (final j ((spec_key p.id, info p.spec) ∷ []))
  unfolding messages
  final-messages j = final-after j ((spec_key p.id, info p.spec) ∷ []) from_sandbox _ (
      final-after j (sandbox_entry p) from_fixed _ (
        final-after j fixed from_containers _ (
          final-after j (entries container_key p.containers) from_volumes _ (
            final-after j (entries (volume_key p.id) p.volumes) from_interfaces _
              (final-append j (entries (interface_key p.id) p.interfaces) last)))))

  final-sandbox_other :
      (j : Text) → (sandbox_key p.id == j) ≡ false → final j (sandbox_entry p) ≡ none
  final-sandbox_other j h = of_sandbox p.sandbox
    where
      of_sandbox :
          (o : Option Text)
          → final j (elim o [ none ↦ [] | some s ↦ (sandbox_key p.id, info s) ∷ [] ]) ≡ none
      of_sandbox none = refl
      of_sandbox (some s) = rw h refl

  -- The last value of each of the pod's keys.
  final-spec : final (spec_key p.id) (messages p) ≡ some (info p.spec)
  final-spec = ground (
    arith,
    final-messages (spec_key p.id),
    ==_refl (spec_key p.id),
    final-sandbox_other (spec_key p.id) refl,
    final-entries_other container_key (spec_key p.id) p.containers (λ k. refl),
    final-entries_other (volume_key p.id) (spec_key p.id) p.volumes (λ k. refl),
    final-entries_other (interface_key p.id) (spec_key p.id) p.interfaces (λ k. refl),
  )

  final-meta : final (meta_key p.id) (messages p) ≡ some (info p.meta)
  final-meta = ground (
    arith,
    final-messages (meta_key p.id),
    ==_refl (meta_key p.id),
    final-entries_other container_key (meta_key p.id) p.containers (λ k. refl),
    final-entries_other (volume_key p.id) (meta_key p.id) p.volumes (λ k. refl),
    final-entries_other (interface_key p.id) (meta_key p.id) p.interfaces (λ k. refl),
  )

  final-container :
      (k : Text) (m : Message)
      → final (container_key k) (entries container_key p.containers) ≡ some m
      → final (container_key k) (messages p) ≡ some m
  final-container k m h = ground (
    arith,
    final-messages (container_key k),
    final-entries_other (volume_key p.id) (container_key k) p.volumes (λ k. refl),
    final-entries_other (interface_key p.id) (container_key k) p.interfaces (λ k. refl),
  )

  final-port_mappings : final (port_mappings_key p.id) (messages p) ≡ some (info p.port_mappings)
  final-port_mappings = ground (
    arith,
    final-messages (port_mappings_key p.id),
    ==_refl (port_mappings_key p.id),
    final-entries_other container_key (port_mappings_key p.id) p.containers (λ k. refl),
    final-entries_other (volume_key p.id) (port_mappings_key p.id) p.volumes (λ k. refl),
    final-entries_other (interface_key p.id) (port_mappings_key p.id) p.interfaces (λ k. refl),
  )

  final-volume :
      (k : Text) (m : Message)
      → final (volume_key p.id k) (entries (volume_key p.id) p.volumes) ≡ some m
      → final (volume_key p.id k) (messages p) ≡ some m
  final-volume k m h = ground (
    arith,
    final-messages (volume_key p.id k),
    final-entries_other (interface_key p.id) (volume_key p.id k) p.interfaces (λ i. refl),
  )

  final-interface :
      (k : Text) (m : Message)
      → final (interface_key p.id k) (entries (interface_key p.id) p.interfaces) ≡ some m
      → final (interface_key p.id k) (messages p) ≡ some m
  final-interface k m h = ground (arith, final-messages (interface_key p.id k))

  final-sandbox_entry : final (sandbox_key p.id) (sandbox_entry p) ≡ of_info p.sandbox
  final-sandbox_entry = of_sandbox p.sandbox
    where
      of_sandbox :
          (o : Option Text)
          → final
              (sandbox_key p.id)
              (elim o [ none ↦ [] | some s ↦ (sandbox_key p.id, info s) ∷ [] ])
            ≡ of_info o
      of_sandbox none = refl
      of_sandbox (some s) = rw (==_refl (sandbox_key p.id)) refl

  final-sandbox : final (sandbox_key p.id) (messages p) ≡ of_info p.sandbox
  final-sandbox = ground (
    arith,
    final-messages (sandbox_key p.id),
    final-sandbox_entry,
    final-entries_other container_key (sandbox_key p.id) p.containers (λ k. refl),
    final-entries_other (volume_key p.id) (sandbox_key p.id) p.volumes (λ k. refl),
    final-entries_other (interface_key p.id) (sandbox_key p.id) p.interfaces (λ k. refl),
  )

load_info-stored :
    (key t : Text) (db : Database) → lookup key db ≡ some (info t) → load_info key db ≡ ok t
unfolding load_info
load_info-stored key t db h = rw (h, load_info) refl

load_each-stored :
    (key : Text → Text) (m : Dict Text Text) (db : Database)
    → All (λ e. lookup (key e.0) db ≡ some (info e.1)) m
    → load_each key (names m) db ≡ ok m
unfolding load_each
load_each-stored key [] db h = refl
load_each-stored key ((k, v) ∷ m) db h =
    rw (load_info-stored (key k) v db h.0, load_each-stored key m db h.1) refl

Kept-stored :
    (key : Text → Text) (all m : Dict Text Text) (db : Database)
    → ((k v : Text) → final k all ≡ some v → lookup (key k) db ≡ some (info v))
    → Kept all m
    → All (λ e. lookup (key e.0) db ≡ some (info e.1)) m
Kept-stored key all [] db f h = tt
Kept-stored key all ((k, v) ∷ m) db f h = (f k v h.0, Kept-stored key all m db f h.1)

load_sandbox-stored :
    (pod : Text) (o : Option Text) (db : Database)
    → lookup (sandbox_key pod) db ≡ of_info o
    → load_sandbox pod db ≡ ok o
unfolding load_sandbox load_info
load_sandbox-stored pod none db h = rw (h, load_sandbox, load_info) refl
load_sandbox-stored pod (some s) db h = rw (h, load_sandbox, load_info) refl

-- A pod that is saved without a refusal is loaded back by its layout as it was: its spec, sandbox,
-- services and labels, port mappings, containers, volumes and interfaces, in their order, whatever
-- else the database holds. The names of its containers, volumes and interfaces are pairwise
-- different, as keys of a map, and if no sandbox is dumped then none is in the database.
pub load_pod-save_pod :
    (accepts : Text → Bool) (p : PodRecord) (db : Database)
    → distinct p.containers ≡ true
    → distinct p.volumes ≡ true
    → distinct p.interfaces ≡ true
    → (p.sandbox ≡ none → lookup (sandbox_key p.id) db ≡ none)
    → (save_pod accepts p db).1 ≡ true
    → load_pod (layout_of p) (save_pod accepts p db).0 ≡ ok p
unfolding load_pod save_pod
load_pod-save_pod accepts p db dc dv di stale saved =
    rw
      (
        load_info-stored (spec_key p.id) p.spec after (stored (spec_key p.id) _ (final-spec p)),
        load_each-stored (interface_key p.id) p.interfaces after (
            Kept-stored (interface_key p.id) p.interfaces p.interfaces after
              (λ k v h. stored (interface_key p.id k) (info v) (
                final-interface p k (info v) (
                  final-entries (interface_key p.id) k p.interfaces (interface_key-Faithful p.id)
                  ∙ ap shown h)))
              (distinct-Kept p.interfaces di)),
        load_each-stored (volume_key p.id) p.volumes after (
            Kept-stored (volume_key p.id) p.volumes p.volumes after
              (λ k v h. stored (volume_key p.id k) (info v) (
                final-volume p k (info v) (
                  final-entries (volume_key p.id) k p.volumes (volume_key-Faithful p.id)
                  ∙ ap shown h)))
              (distinct-Kept p.volumes dv)),
        load_each-stored container_key p.containers after (
            Kept-stored container_key p.containers p.containers after
              (λ k v h. stored (container_key k) (info v) (
                final-container p k (info v)
                  (final-entries container_key k p.containers container_key-Faithful ∙ ap shown h)))
              (distinct-Kept p.containers dc)),
        load_sandbox-stored p.id p.sandbox after (sandbox_stored p.sandbox refl),
        load_info-stored (meta_key p.id) p.meta after (stored (meta_key p.id) _ (final-meta p)),
        load_info-stored (port_mappings_key p.id) p.port_mappings after
            (stored (port_mappings_key p.id) _ (final-port_mappings p)),
      )
      refl
  where
    after : Database
    after = (save_all accepts (messages p) db).0

    shown : Option Text → Option Message
    shown o = elim o [ none ↦ none | some v ↦ some (info v) ]

    stored : (j : Text) (m : Message) → final j (messages p) ≡ some m → lookup j after ≡ some m
    stored j m h =
        lookup-save_all accepts (messages p) db j saved ∙ ap (λ o. or_else o (lookup j db)) h

    sandbox_stored :
        (o : Option Text) → p.sandbox ≡ o → lookup (sandbox_key p.id) after ≡ of_info p.sandbox
    sandbox_stored none e =
        lookup-save_all accepts (messages p) db (sandbox_key p.id) saved
        ∙ ground (arith, final-sandbox p, e, stale e)
    sandbox_stored (some s) e =
        lookup-save_all accepts (messages p) db (sandbox_key p.id) saved
        ∙ ground (arith, final-sandbox p, e)
