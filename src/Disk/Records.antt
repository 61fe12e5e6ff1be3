-- ===== src/Disk/Records.antt =====
-- daemon/storage.go: the records of devices that getPersistedId reads, in a store that is written.
use hyperd.Prelude.{
  ℕ, ◌<◌, ◌≡◌, refl, arith, true, false, none, some, List, [], ◌∷◌, ◌++◌, All, lookup, insert, ◌==◌,
  ==_refl,
}
use hyperd.Prelude.Text.{Text, text_eq}
use hyperd.Prelude.Int.{ℤ, pos}
use hyperd.Prelude.Decimal.{itoa, IsDigits, itoa-IsDigits}
use hyperd.Names.{cut, limit}
use hyperd.Names.Reading.{cut-append, parse_int-itoa}
use hyperd.Store.{Store, prefix_volume, has_prefix, prefix_list, list_pod_volumes, update}
use hyperd.Store.Kinds.{has_colon}
use hyperd.Disk.{Leveldb, record_of, id_loop}

-- No record in the list is one of the name.
abbrev pub NoneOf : Text → List Text → Type 0
NoneOf name vols = All (λ v. ((cut b':' v).0 == name) ≡ false) vols

pub id_loop-NoneOf :
    (name : Text) (vols : List Text) (dev_id : ℤ)
    → NoneOf name vols
    → id_loop name vols dev_id ≡ some dev_id
unfolding id_loop
id_loop-NoneOf name [] dev_id h = refl
id_loop-NoneOf name (v ∷ vols) dev_id (h, hs) =
    ground (arith, h, id_loop-NoneOf name vols dev_id hs)

pub id_loop-append :
    (name : Text) (vols : List Text) (more : List Text) (dev_id : ℤ)
    → NoneOf name vols
    → id_loop name (vols ++ more) dev_id ≡ id_loop name more dev_id
unfolding id_loop
id_loop-append name [] more dev_id h = refl
id_loop-append name (v ∷ vols) more dev_id (h, hs) =
    ground (arith, h, id_loop-append name vols more dev_id hs)

cut-digits : (s : Text) → IsDigits s → cut b':' s ≡ (s, none)
unfolding IsDigits
cut-digits [] h = refl
cut-digits (c ∷ s) h = ground (arith, h.0, cut-digits s h.1)

pub id_loop-record_of :
    (name : Text) (n : ℕ) (dev_id : ℤ)
    → has_colon name ≡ false
    → n < limit
    → id_loop name (record_of name (pos n) ∷ []) dev_id ≡ some (pos n)
unfolding id_loop
id_loop-record_of name n dev_id h bound =
    rw
      (
        cut-append b':' name (itoa n) h,
        ==_refl name,
        cut-digits (itoa n) (itoa-IsDigits n),
        parse_int-itoa n bound,
      )
      refl

insert-absent :
    (key value : Text) (db : Store)
    → lookup key db ≡ none
    → insert key value db ≡ db ++ (key, value) ∷ []
unfolding lookup insert
insert-absent key value [] h = refl
insert-absent key value ((k, v) ∷ db) h = ground (arith, h, insert-absent key value db)

pub update-absent :
    (disk : Leveldb) (key value : Text) (db : Store)
    → lookup key db ≡ none
    → disk.puts key ≡ true
    → (update disk key value db).0 ≡ db ++ (key, value) ∷ []
unfolding update
update-absent disk key value db h p = ground (arith, h, p, insert-absent key value db h)

pub list_pod_volumes-append :
    (pod key value : Text) (db : Store)
    → has_prefix (prefix_volume pod) key ≡ true
    → list_pod_volumes pod (db ++ (key, value) ∷ []) ≡ list_pod_volumes pod db ++ value ∷ []
unfolding list_pod_volumes prefix_list
list_pod_volumes-append pod key value [] h = ground (arith, h)
list_pod_volumes-append pod key value ((k, v) ∷ db) h =
    ground (arith, h, list_pod_volumes-append pod key value db h)
