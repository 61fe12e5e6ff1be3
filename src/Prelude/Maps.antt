-- ===== src/Prelude/Maps.antt =====
-- Go maps as association lists: `insert` is `m[k] = v`, `delete` is `delete(m, k)`, `lookup` the
-- two-value index. The laws have no side condition; clients keep the functions shut.
use mathlib.Core.Path.{◌≡◌, refl}
use mathlib.Core.List.{List, [], ◌∷◌}
use mathlib.Core.Option.{Option, none, some}
use native.Mathlib.Omega.{arith}
use hyperd.Prelude.Tests.{if◌then◌else◌}
use hyperd.Prelude.Lists.{any}
use hyperd.Prelude.Equality.{Comparable, ◌==◌, ==_refl}

abbrev pub Dict {ℓ κ} : Type ℓ → Type κ → Type (ℓ ⊔ κ)
Dict K V = List (K × V)

module _ {ℓ κ} {K : Type ℓ} {V : Type κ} ⦃e : Comparable K⦄ where
  unfoldable pub lookup : K → Dict K V → Option V
  lookup k [] = none
  lookup k ((j, v) ∷ m) = if j == k then some v else lookup k m

  unfoldable pub insert : K → V → Dict K V → Dict K V
  insert k v [] = (k, v) ∷ []
  insert k v ((j, w) ∷ m) = if j == k then (k, v) ∷ m else (j, w) ∷ insert k v m

  unfoldable pub delete : K → Dict K V → Dict K V
  delete k [] = []
  delete k ((j, v) ∷ m) = let rest = delete k m in if j == k then rest else (j, v) ∷ rest

  pub lookup-insert :
      (x y : K) (a : V) (m : Dict K V)
      → lookup y (insert x a m) ≡ (if x == y then some a else lookup y m)
  unfolding lookup insert
  lookup-insert x y a [] = refl
  lookup-insert x y a ((z, b) ∷ m) =
      ground (arith, e.equal_iff x y, e.equal_iff z x, e.equal_iff z y, lookup-insert x y a m)

  pub lookup-delete :
      (x y : K) (m : Dict K V) → lookup y (delete x m) ≡ (if x == y then none else lookup y m)
  unfolding lookup delete
  lookup-delete x y [] = ground arith
  lookup-delete x y ((z, b) ∷ m) =
      ground (arith, e.equal_iff x y, e.equal_iff z x, e.equal_iff z y, lookup-delete x y m)

  pub lookup-insert_self : (x : K) (a : V) (m : Dict K V) → lookup x (insert x a m) ≡ some a
  lookup-insert_self x a m = simp (lookup-insert, ==_refl)

  pub lookup-delete_self : (x : K) (m : Dict K V) → lookup x (delete x m) ≡ none
  lookup-delete_self x m = simp (lookup-delete, ==_refl)

  -- Several keys deleted one after the other.
  unfoldable pub delete_all : List K → Dict K V → Dict K V
  delete_all [] m = m
  delete_all (k ∷ ks) m = delete_all ks (delete k m)

  pub lookup-delete_all :
      (ks : List K) (j : K) (m : Dict K V)
      → lookup j (delete_all ks m) ≡ (if any (λ k. k == j) ks then none else lookup j m)
  unfolding delete_all
  lookup-delete_all [] j m = refl
  lookup-delete_all (k ∷ ks) j m =
      ground (arith, lookup-delete_all ks j (delete k m), lookup-delete k j m)

pub ruleset dict_laws = (lookup-insert, lookup-delete, lookup-delete_all)
