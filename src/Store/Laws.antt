-- ===== src/Store/Laws.antt =====
-- daemon/daemondb/daemondb.go: what the operations leave under each key.
use hyperd.Prelude.{
  ◌≡◌, refl, arith, true, false, ◌&&◌, none, some, List, [], ◌∷◌, ◌++◌, any, lookup, delete,
  lookup-insert, lookup-delete, ◌==◌, ==_iff, ==_refl, if◌then◌else◌,
}
use hyperd.Prelude.Text.{Text, text_eq}
use hyperd.Store.{
  Store, Disk, has_prefix, remove, update, keys, entries_of, try_delete, prefix_delete, key_volume,
}

-- Update writes the value under its key and nothing else. Where it fails, the key has lost its old
-- value if leveldb carried out the deletion, and has kept it if not.
pub lookup-update :
    (disk : Disk) (key value : Text) (db : Store) (j : Text)
    → lookup j (update disk key value db).0 ≡ (
        if key == j
        then (if (update disk key value db).1
            then some value
            else if disk.deletes key
            then none
            else lookup j db)
        else lookup j db)
unfolding update
lookup-update disk key value db j = ground (
  arith,
  lookup-insert key j value db,
  lookup-insert key j value (delete key db),
  lookup-delete key j db,
  ==_iff key j,
)

pub lookup-update_self :
    (disk : Disk) (key value : Text) (db : Store)
    → (update disk key value db).1 ≡ true
    → lookup key (update disk key value db).0 ≡ some value
lookup-update_self disk key value db h =
    ground (arith, lookup-update disk key value db key, ==_refl key, h)

lookup-try_delete :
    (disk : Disk) (ks : List Text) (db : Store) (j : Text)
    → lookup j (try_delete disk ks db)
      ≡ (if any (λ k. k == j) ks && disk.deletes j then none else lookup j db)
unfolding try_delete remove
lookup-try_delete disk [] db j = refl
lookup-try_delete disk (k ∷ ks) db j = ground (
  arith,
  lookup-try_delete disk ks (delete k db) j,
  lookup-try_delete disk ks db j,
  lookup-delete k j db,
  ==_iff k j,
)

-- A key with the prefix is either among the keys found, or has no value.
keys-has_prefix :
    (prefix j : Text) (db : Store)
    → any (λ k. k == j) (keys (entries_of prefix db)) ≡ true
    → has_prefix prefix j ≡ true
keys-has_prefix prefix j [] h = ground (arith, h)
keys-has_prefix prefix j ((k, v) ∷ db) h =
    ground (arith, h, keys-has_prefix prefix j db, ==_iff k j)

-- A key with the prefix that has a value is among the keys found.
keys_complete :
    (prefix j : Text) (db : Store)
    → has_prefix prefix j ≡ true
    → any (λ k. k == j) (keys (entries_of prefix db)) ≡ false
    → lookup j db ≡ none
unfolding lookup
keys_complete prefix j [] h e = refl
keys_complete prefix j ((k, v) ∷ db) h e =
    ground (arith, h, e, keys_complete prefix j db, ==_iff k j)

-- PrefixDelete removes exactly the keys with the prefix, those excepted whose deletion leveldb
-- refuses.
pub lookup-prefix_delete :
    (disk : Disk) (prefix : Text) (db : Store) (j : Text)
    → lookup j (prefix_delete disk prefix db)
      ≡ (if has_prefix prefix j && disk.deletes j then none else lookup j db)
unfolding prefix_delete
lookup-prefix_delete disk prefix db j = ground (
  arith,
  lookup-try_delete disk (keys (entries_of prefix db)) db j,
  keys-has_prefix prefix j db,
  keys_complete prefix j db,
)

pub has_prefix-append : (p s : Text) → has_prefix p (p ++ s) ≡ true
has_prefix-append [] s = refl
has_prefix-append (c ∷ p) s = ground (arith, has_prefix-append p s)

append-cancel : (p a b : Text) → p ++ a ≡ p ++ b → a ≡ b
append-cancel [] a b e = e
append-cancel (c ∷ p) a b e = append-cancel p a b (ground (arith, e))

pub key_volume-cancel : (pod a b : Text) → key_volume pod a ≡ key_volume pod b → a ≡ b
key_volume-cancel pod a b e =
    let tails : pod ++ b'-' ∷ a ≡ pod ++ b'-' ∷ b = ground (arith, e) in
    let names : b'-' ∷ a ≡ b'-' ∷ b = append-cancel pod (b'-' ∷ a) (b'-' ∷ b) tails in
    ground (arith, names)
