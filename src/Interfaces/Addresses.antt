-- ===== src/Interfaces/Addresses.antt =====
-- daemon/pod/networks.go: the addresses that a failed preparation releases.
use hyperd.Prelude.{
  ◌≡◌, inl, inr, refl, sym, ap, ◌∙◌, arith, Bool, false, Option, none, some, List, [], ◌∷◌, ◌++◌,
  append_assoc, Option-cases,
}
use hyperd.Prelude.Text.{Text}
use hyperd.Interfaces.{
  Error, Interface, prepare, cleanup, cleanup_all, prepare_all, prepare_interfaces,
}

cleanup_all-append :
    (is js : List Interface) → cleanup_all (is ++ js) ≡ cleanup_all is ++ cleanup_all js
unfolding cleanup_all
cleanup_all-append [] js = refl
cleanup_all-append (i ∷ is) js =
    ap (λ t. cleanup i ++ t) (cleanup_all-append is js)
    ∙ sym (append_assoc (cleanup i) (cleanup_all is) (cleanup_all js))

prepare-fails :
    (i : Interface) (answers : List (Option Text)) (e : Error)
    → (prepare i answers).2 ≡ some e
    → (prepare i answers).0 ≡ i
unfolding prepare
prepare-fails i answers e h = ground arith

prepare_all-cons :
    (i : Interface) (is : List Interface) (answers : List (Option Text))
    → (prepare i answers).2 ≡ none
    → prepare_all (i ∷ is) answers ≡ (
      (prepare i answers).0 ∷ (prepare_all is (prepare i answers).1).0,
      (prepare_all is (prepare i answers).1).1,
    )
unfolding prepare_all
prepare_all-cons i is answers h = rw (h, prepare_all) refl

prepare_all-stops :
    (i : Interface) (is : List Interface) (answers : List (Option Text)) (e : Error)
    → (prepare i answers).2 ≡ some e
    → prepare_all (i ∷ is) answers ≡ (i ∷ is, some e)
unfolding prepare_all
prepare_all-stops i is answers e h = ground (arith, prepare-fails i answers e h)

-- The list is that of the interfaces up to one that cannot be prepared, prepared, and the others.
abbrev pub Stopped : List Interface → List (Option Text) → List Interface → List Interface → Type 0
Stopped is answers prepared rest =
    (before : List Interface) × (is ≡ before ++ rest)
    × (prepare_all before answers ≡ (prepared, none))

prepare_all-Stopped :
    (is : List Interface) (answers : List (Option Text)) (e : Error)
    → (prepare_all is answers).1 ≡ some e
    → (prepared : List Interface) × (rest : List Interface) × ((prepare_all is answers).0
        ≡ prepared ++ rest)
      × Stopped is answers prepared rest
prepare_all-Stopped [] answers e h = absurd (unfold prepare_all in ground (arith, h))
prepare_all-Stopped (i ∷ is) answers e h = elim (Option-cases (prepare i answers).2) [
  | inl fine ↦
      let eq = prepare_all-cons i is answers fine in
      let (prepared, rest, same, (before, split, all)) =
        prepare_all-Stopped is (prepare i answers).1 e (sym (ap (λ r. r.1) eq) ∙ h) in
      (
        (prepare i answers).0 ∷ prepared,
        rest,
        ap (λ r. r.0) eq ∙ ap (λ t. (prepare i answers).0 ∷ t) same,
        (
          i ∷ before,
          ap (λ t. i ∷ t) split,
          prepare_all-cons i before answers fine ∙ ap (λ r. ((prepare i answers).0 ∷ r.0, r.1)) all,
        ),
      )
  | inr (x, fails) ↦ (
    [],
    i ∷ is,
    ap (λ r. r.0) (prepare_all-stops i is answers x fails),
    ([], refl, unfold prepare_all in refl),
  )
]

-- When an interface of a pod cannot be prepared, what is released is the addresses of those before
-- it, which were prepared, and those that it and the later ones have kept in their descriptions
-- from an earlier time.
pub prepare_interfaces-fails :
    (mapped : Bool) (is : List Interface) (answers : List (Option Text)) (e : Error)
    → (prepare_all is answers).1 ≡ some e
    → (prepared : List Interface) × (rest : List Interface) × Stopped is answers prepared rest
      × (prepare_interfaces mapped is answers
          ≡ (prepared ++ rest, false, cleanup_all prepared ++ cleanup_all rest))
unfolding prepare_interfaces
prepare_interfaces-fails mapped is answers e h =
    let (prepared, rest, same, stopped) = prepare_all-Stopped is answers e h in
    (
      prepared,
      rest,
      stopped,
      ground (arith, h)
          ∙ ap (λ js. (js, false, cleanup_all js)) same
          ∙ ap (λ t. (prepared ++ rest, false, t)) (cleanup_all-append prepared rest),
    )
