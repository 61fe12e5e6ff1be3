-- ===== src/Store/Kinds.antt =====
-- daemon/daemondb/daemondb.go and keys.go: the list of a pod's containers, and the volumes of pods
-- whose ids begin alike.
use hyperd.Prelude.{
  ◌≡◌, ◌≢◌, refl, ap, ◌∙◌, arith, Bool, true, false, ◌&&◌, none, some, List, [], ◌∷◌, ◌++◌, any,
  All, lookup, nat_beq, if◌then◌else◌,
}
use hyperd.Prelude.Text.{Text, text_eq}
use hyperd.Names.{split}
use hyperd.Store.{
  Store, Disk, has_prefix, key_volume, prefix_volume, delete_pod_volumes, key_p2c, join, join_after,
  split_list, legacy_get_p2c, legacy_update_p2c,
}
use hyperd.Store.Laws.{lookup-update_self, lookup-prefix_delete}

abbrev pub has_colon : Text → Bool
has_colon s = any (λ c. nat_beq c b':') s

split-one : (s : Text) → has_colon s ≡ false → split b':' s ≡ s ∷ []
split-one [] h = refl
split-one (c ∷ s) h = ground (arith, h, split-one s)

split-colon : (s t : Text) → has_colon s ≡ false → split b':' (s ++ b':' ∷ t) ≡ s ∷ split b':' t
split-colon [] t h = refl
split-colon (c ∷ s) t h = ground (arith, h, split-colon s t)

abbrev pub AreIds : List Text → Type 0
AreIds ss = All (λ s. (has_colon s ≡ false) × (s ≢ [])) ss

split-join_after :
    (s : Text) (ss : List Text)
    → has_colon s ≡ false
    → AreIds ss
    → split b':' (join_after s ss) ≡ s ∷ ss
split-join_after s [] h hs = split-one s h
split-join_after s (t ∷ ts) h (ht, hs) =
    split-colon s (join_after t ts) h
    ∙ ap (λ (l : List Text). s ∷ l) (split-join_after t ts ht.0 hs)

split_list-cons : (s : Text) → s ≢ [] → split_list s ≡ split b':' s
unfolding split_list
split_list-cons [] h = absurd (h refl)
split_list-cons (c ∷ s) h = refl

join_after_nonempty : (s : Text) (ss : List Text) → s ≢ [] → join_after s ss ≢ []
join_after_nonempty [] ss h e = h refl
join_after_nonempty (c ∷ s) [] h e = ground (arith, e)
join_after_nonempty (c ∷ s) (t ∷ ts) h e = ground (arith, e)

split_list-join : (ss : List Text) → AreIds ss → split_list (join ss) ≡ ss
split_list-join [] h = unfold split_list in refl
split_list-join (s ∷ ss) (h, hs) =
    split_list-cons (join_after s ss) (join_after_nonempty s ss h.1) ∙ split-join_after s ss h.0 hs

legacy_get_p2c-some :
    (pod value : Text) (db : Store)
    → lookup (key_p2c pod) db ≡ some value
    → legacy_get_p2c pod db ≡ some (split_list value)
unfolding legacy_get_p2c
legacy_get_p2c-some pod value db e = rw (e, legacy_get_p2c) refl

-- The containers that LagecyUpdateP2C writes for a pod without an error are those that LagecyGetP2C
-- reads, where no id is empty or has a colon.
pub legacy_get_p2c-legacy_update_p2c :
    (disk : Disk) (pod : Text) (containers : List Text) (db : Store)
    → AreIds containers
    → (legacy_update_p2c disk pod containers db).1 ≡ true
    → legacy_get_p2c pod (legacy_update_p2c disk pod containers db).0 ≡ some containers
unfolding legacy_update_p2c
legacy_get_p2c-legacy_update_p2c disk pod containers db ids h =
    legacy_get_p2c-some pod (join containers) (legacy_update_p2c disk pod containers db).0
      (lookup-update_self disk (key_p2c pod) (join containers) db h)
    ∙ ap some (split_list-join containers ids)

-- DeletePodVolumes removes the volumes of every pod whose id begins with the given one: of a pod
-- and a volume the record stays exactly if the given id is no prefix of the id, a dash and the
-- name, or leveldb refuses the deletion.
pub lookup-delete_pod_volumes :
    (disk : Disk) (pod other volume : Text) (db : Store)
    → lookup (key_volume other volume) (delete_pod_volumes disk pod db) ≡ (
        if has_prefix pod (other ++ b'-' ∷ volume) && disk.deletes (key_volume other volume)
        then none
        else lookup (key_volume other volume) db)
unfolding delete_pod_volumes
lookup-delete_pod_volumes disk pod other volume db =
    lookup-prefix_delete disk (prefix_volume pod) db (key_volume other volume)
