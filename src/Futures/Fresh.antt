-- ===== src/Futures/Fresh.antt =====
-- utils/sync.go: the loop of Add that looks for a new identifier ends.
use hyperd.Prelude.{
  ℕ, zero, suc, ◌+◌, ◌≤◌, ◌<◌, ◌≡◌, refl, ap, arith, true, false, Bool-cases, some, List, [], ◌∷◌,
  ◌++◌, ◌==◌, ==_iff, length, length-append, if◌then◌else◌, leb, inl, inr,
}
use hyperd.Prelude.Text.{Text, text_eq}
use hyperd.Futures.{waits, fresh_id, add}

-- How many of the identifiers are at least so long.
abbrev longer : ℕ → List Text → ℕ
longer n [] = 0
longer n (i ∷ ids) = if leb n (length i) then longer n ids + 1 else longer n ids

longer-le : (n : ℕ) (ids : List Text) → longer n ids ≤ length ids
longer-le n [] = omega arith
longer-le n (i ∷ ids) = ground (arith, longer-le n ids)

longer_mono : (n k : ℕ) (ids : List Text) → longer (n + k) ids ≤ longer n ids
longer_mono n k [] = omega arith
longer_mono n k (i ∷ ids) = ground (arith, longer_mono n k ids)

-- An identifier in the list counts, and no longer counts for one that is longer.
longer-waits :
    (id : Text) (k : ℕ) (ids : List Text)
    → waits id ids ≡ true
    → longer (length id + suc k) ids < longer (length id) ids
longer-waits id k [] h = absurd (ground arith)
longer-waits id k (i ∷ ids) h = elim (Bool-cases (i == id)) [
  | inl e ↦ ground (arith, longer_mono (length id) (suc k) ids, ap length ((==_iff i id).0 e))
  | inr e ↦ ground (arith, longer-waits id k ids, e)
]

fresh_id_found :
    (fuel : ℕ) (rand : ℕ → Text) (i : ℕ) (id : Text) (ids : List Text)
    → ((j : ℕ) → length (rand j) ≡ 4)
    → longer (length id) ids < fuel
    → (new : Text) × (fresh_id fuel rand i id ids ≡ some new) × (waits new ids ≡ false)
unfolding fresh_id
fresh_id_found zero rand i id ids four h = absurd (omega arith)
fresh_id_found (suc fuel) rand i id ids four h = elim (Bool-cases (waits id ids)) [
  | inl e ↦ rw e (
      fresh_id_found fuel rand (i + 1) (id ++ rand i) ids four (
        ground (
          arith,
          longer-waits id 3 ids e,
          four i,
          length-append id (rand i),
          ap (λ n. longer n ids) (length-append id (rand i)),
          ap (λ n. longer (length id + n) ids) (four i),
        )))
  | inr e ↦ rw e (id, refl, e)
]

-- Adding an operation ends, with an identifier that no other has, after at most one round more
-- than there are identifiers, for any random strings of four characters.
pub add_fresh :
    (rand : ℕ → Text) (id : Text) (ids : List Text)
    → ((j : ℕ) → length (rand j) ≡ 4)
    → (new : Text) × (add (length ids + 1) rand id ids ≡ some (new ∷ ids)) × (waits new ids ≡ false)
unfolding add
add_fresh rand id ids four =
    let (new, e, f) =
      fresh_id_found (length ids + 1) rand 0 id ids four
        (omega (arith, longer-le (length id) ids)) in
    (new, rw (e, add) refl, f)
