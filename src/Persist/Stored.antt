-- ===== src/Persist/Stored.antt =====
-- daemon/pod/persist.go: what a sequence of writes leaves under each key.
use hyperd.Prelude.{
  ◌≡◌, refl, ap, ◌∙◌, arith, Bool, true, false, Option, none, some, List, [], ◌∷◌, ◌++◌, Dict,
  lookup, insert, lookup-insert, ◌==◌, ==_refl, if◌then◌else◌, All, any,
}
use hyperd.Prelude.Text.{Text, text_eq, text_beq}
use hyperd.Persist.{
  Message, info, Database, save_all, entries, volume_key, interface_key, container_key,
}

-- The last value of a key in a sequence of writes.
abbrev pub final {ℓ} : {V : Type ℓ} → Text → List (Text × V) → Option V
final j [] = none
final j ((k, m) ∷ es) = elim (final j es) [
  | some n ↦ some n
  | none ↦ if k == j then some m else none
]

abbrev pub or_else {ℓ} : {V : Type ℓ} → Option V → Option V → Option V
or_else none b = b
or_else (some a) b = some a

pub final-append :
    (j : Text) (es fs : List (Text × Message))
    → final j (es ++ fs) ≡ or_else (final j fs) (final j es)
final-append j [] fs = of_option (final j fs)
  where
    of_option : (o : Option Message) → o ≡ or_else o none
    of_option none = refl
    of_option (some x) = refl
final-append j ((k, m) ∷ es) fs =
    ap (λ o. elim o [ some n ↦ some n | none ↦ if k == j then some m else none ])
      (final-append j es fs)
    ∙ of_option (final j fs)
  where
    of_option :
        (o : Option Message)
        → elim (or_else o (final j es)) [ some n ↦ some n | none ↦ if k == j then some m else none ]
          ≡ or_else o (final j ((k, m) ∷ es))
    of_option none = refl
    of_option (some x) = refl

-- If no write is refused, the database has the last value of each key that is written.
pub lookup-save_all :
    (accepts : Text → Bool) (es : List (Text × Message)) (db : Database) (j : Text)
    → (save_all accepts es db).1 ≡ true
    → lookup j (save_all accepts es db).0 ≡ or_else (final j es) (lookup j db)
unfolding save_all
lookup-save_all accepts [] db j h = refl
lookup-save_all accepts ((k, m) ∷ es) db j h =
    ground (arith, lookup-save_all accepts es (insert k m db) j, lookup-insert k j m db)

-- Are the names pairwise different?
abbrev pub distinct : Dict Text Text → Bool
distinct [] = true
distinct ((k, v) ∷ m) = if any (λ e. e.0 == k) m then false else distinct m

final-absent : (k : Text) (m : Dict Text Text) → any (λ e. e.0 == k) m ≡ false → final k m ≡ none
final-absent k [] h = refl
final-absent k ((j, v) ∷ m) h = ground (arith, final-absent k m)

abbrev pub Kept : Dict Text Text → Dict Text Text → Type 0
Kept all = All (λ e. final e.0 all ≡ some e.1)

Kept-cons : (k v : Text) (all m : Dict Text Text) → Kept all m → Kept ((k, v) ∷ all) m
Kept-cons k v all [] h = tt
Kept-cons k v all ((j, w) ∷ m) h = (ground (arith, h.0), Kept-cons k v all m h.1)

pub distinct-Kept : (m : Dict Text Text) → distinct m ≡ true → Kept m m
distinct-Kept [] h = tt
distinct-Kept ((k, v) ∷ m) h = (
  ground (arith, final-absent k m, ==_refl k),
  Kept-cons k v m m (distinct-Kept m (ground arith)),
)

-- A key function that keeps names apart.
abbrev pub Faithful : (Text → Text) → Type 0
Faithful key = (a b : Text) → (key a == key b) ≡ (a == b)

pub final-entries :
    (key : Text → Text) (k : Text) (m : Dict Text Text)
    → Faithful key
    → final (key k) (entries key m) ≡ elim (final k m) [ none ↦ none | some v ↦ some (info v) ]
final-entries key k [] f = refl
final-entries key k ((j, v) ∷ m) f = ground (arith, final-entries key k m f, f j k)

-- No entry has a key of another kind.
pub final-entries_other :
    (key : Text → Text) (j : Text) (m : Dict Text Text)
    → ((k : Text) → (key k == j) ≡ false)
    → final j (entries key m) ≡ none
final-entries_other key j [] f = refl
final-entries_other key j ((k, v) ∷ m) f = ground (arith, final-entries_other key j m f, f k)

text_beq-append : (pre a b : Text) → text_beq (pre ++ a) (pre ++ b) ≡ text_beq a b
text_beq-append [] a b = refl
text_beq-append (c ∷ pre) a b = ground (arith, text_beq-append pre a b)

pub container_key-Faithful : Faithful container_key
container_key-Faithful a b = refl

pub volume_key-Faithful : (pod : Text) → Faithful (volume_key pod)
volume_key-Faithful pod a b = text_beq-append pod (b'-' ∷ a) (b'-' ∷ b)

pub interface_key-Faithful : (pod : Text) → Faithful (interface_key pod)
interface_key-Faithful pod a b = text_beq-append pod (b'-' ∷ a) (b'-' ∷ b)
