-- ===== src/Placement/Subscribing.antt =====
-- daemon/pod/container.go, volume.go: the subscriptions of a container to its volumes.
use hyperd.Prelude.{
  ℕ, ◌+◌, ◌≤◌, ◌≡◌, ◌⊎◌, inl, inr, refl, sym, subst, ap, arith, String, true, false, Bool-cases,
  ◌==◌, ==_iff, ==_refl, string_eq, nat_eq, Option, none, some, Option-cases, List, [], ◌∷◌, lookup,
  insert, lookup-insert, if◌then◌else◌,
}
use hyperd.Volume.{Error, Volume, Groups, add_one, subscribe_insert}
use hyperd.Volume.Notify.{count, count-append}
use hyperd.Placement.{Volumes, member, subscribe_all}

-- How often the wait group stands in the subscriptions of all the volumes.
abbrev pub total : ℕ → Volumes → ℕ
total g [] = 0
total g ((n, v) ∷ m) = count g v.insert_subscribers + total g m

-- How often it stands in those of one.
abbrev pub subscriptions : ℕ → Option Volume → ℕ
subscriptions g none = 0
subscriptions g (some v) = count g v.insert_subscribers

pub total-insert :
    (g : ℕ) (n : String) (v v' : Volume) (m : Volumes)
    → lookup n m ≡ some v
    → total g (insert n v' m) + count g v.insert_subscribers
      ≡ total g m + count g v'.insert_subscribers
unfolding lookup insert
total-insert g n v v' [] h = absurd (ground arith)
total-insert g n v v' ((k, u) ∷ m) h = elim (Bool-cases (k == n)) [
  | inl e ↦ ground (arith, e, h)
  | inr e ↦ ground (arith, e, h, total-insert g n v v' m)
]

-- A subscription: the counter of a group grows as its subscriptions do, by one at most.
subscribe_insert-counter :
    (g j : ℕ) (v : Volume) (w : Groups)
    → ((subscribe_insert g v w).1 j).counter + count j v.insert_subscribers
      ≡ (w j).counter + count j (subscribe_insert g v w).0.insert_subscribers
unfolding subscribe_insert add_one
subscribe_insert-counter g j v w = ground (arith, count-append j g v.insert_subscribers)

subscribe_insert-once :
    (g : ℕ) (v : Volume) (w : Groups)
    → count g (subscribe_insert g v w).0.insert_subscribers ≤ count g v.insert_subscribers + 1
unfolding subscribe_insert add_one
subscribe_insert-once g v w = ground (arith, count-append g g v.insert_subscribers)

-- What a run of subscriptions has done, from some volumes and groups to others: the counter of
-- each group grows as its subscriptions, and no volume gets the group `g` twice, or at all if it
-- has it already.
pub record IsSubscribed (g : ℕ) (volmap : List String) (vols : Volumes) (w : Groups)
    (vols' : Volumes) (w' : Groups) : Type 0 where
  pub counted : (j : ℕ) → (w' j).counter + total j vols ≡ (w j).counter + total j vols'
  pub at_most_once :
      (n : String)
      → subscriptions g (lookup n vols')
        ≤ subscriptions g (lookup n vols) + (if member n volmap then 0 else 1)

abbrev pub Done :
    ℕ → List String → Volumes → Groups → List String × Volumes × Groups × Option Error → Type 0
Done g volmap vols w (seen, vols', w', e) = IsSubscribed g volmap vols w vols' w'

none-IsSubscribed :
    (g : ℕ) (volmap : List String) (vols : Volumes) (w : Groups)
    → IsSubscribed g volmap vols w vols w
none-IsSubscribed g volmap vols w = record { counted = λ j. refl; at_most_once = λ n. ground arith }

subscribe_insert-IsSubscribed :
    (g : ℕ) (n : String) (volmap : List String) (v : Volume) (vols vols' : Volumes) (w w' : Groups)
    → member n volmap ≡ false
    → lookup n vols ≡ some v
    → IsSubscribed g
        (n ∷ volmap)
        (insert n (subscribe_insert g v w).0 vols)
        (subscribe_insert g v w).1
        vols'
        w'
    → IsSubscribed g volmap vols w vols' w'
subscribe_insert-IsSubscribed g n volmap v vols vols' w w' fresh h i = record {
  counted = λ j. omega (
    arith,
    i.counted j,
    total-insert j n v (subscribe_insert g v w).0 vols h,
    subscribe_insert-counter g j v w,
  );
  at_most_once = λ k. elim (Bool-cases (n == k)) [
    | inl e ↦
        subst
          (λ m.
            subscriptions g (lookup m vols')
            ≤ subscriptions g (lookup m vols) + (if member m volmap then 0 else 1))
          ((==_iff n k).0 e)
          (ground (
            arith,
            fresh,
            ap (subscriptions g) h,
            i.at_most_once n,
            ==_refl n,
            subscribe_insert-once g v w,
            ap (subscriptions g) (lookup-insert n n (subscribe_insert g v w).0 vols),
          ))
    | inr e ↦ ground (
      arith,
      e,
      i.at_most_once k,
      ap (subscriptions g) (lookup-insert n k (subscribe_insert g v w).0 vols),
    )
  ];
}

pub subscribe_all-skip :
    (g : ℕ) (n : String) (ns volmap : List String) (vols : Volumes) (w : Groups)
    → (member n volmap ≡ true) ⊎ (lookup n vols ≡ none)
    → subscribe_all g (n ∷ ns) volmap vols w ≡ subscribe_all g ns volmap vols w
unfolding subscribe_all
subscribe_all-skip g n ns volmap vols w (inl h) = rw (h, subscribe_all) refl
subscribe_all-skip g n ns volmap vols w (inr h) = ground (arith, h)

pub subscribe_all-fails :
    (g : ℕ) (n : String) (ns volmap : List String) (v : Volume) (x : Error) (vols : Volumes)
    (w : Groups)
    → member n volmap ≡ false
    → lookup n vols ≡ some v
    → (subscribe_insert g v w).2 ≡ some x
    → subscribe_all g (n ∷ ns) volmap vols w
      ≡ (n ∷ volmap, insert n (subscribe_insert g v w).0 vols, (subscribe_insert g v w).1, some x)
unfolding subscribe_all
subscribe_all-fails g n ns volmap v x vols w fresh h e = rw (fresh, h, e) refl

pub subscribe_all-goes_on :
    (g : ℕ) (n : String) (ns volmap : List String) (v : Volume) (vols : Volumes) (w : Groups)
    → member n volmap ≡ false
    → lookup n vols ≡ some v
    → (subscribe_insert g v w).2 ≡ none
    → subscribe_all g (n ∷ ns) volmap vols w
      ≡ subscribe_all g ns
          (n ∷ volmap)
          (insert n (subscribe_insert g v w).0 vols)
          (subscribe_insert g v w).1
unfolding subscribe_all
subscribe_all-goes_on g n ns volmap v vols w fresh h e = rw (fresh, h, e, subscribe_all) refl

pub subscribe_all-Done :
    (g : ℕ) (ns volmap : List String) (vols : Volumes) (w : Groups)
    → Done g volmap vols w (subscribe_all g ns volmap vols w)
subscribe_all-Done g [] volmap vols w = unfold subscribe_all in none-IsSubscribed g volmap vols w
subscribe_all-Done g (n ∷ ns) volmap vols w = elim (Bool-cases (member n volmap)) [
  | inl known ↦
      subst (λ r. Done g volmap vols w r)
        (sym (subscribe_all-skip g n ns volmap vols w (inl known)))
        (subscribe_all-Done g ns volmap vols w)
  | inr fresh ↦ elim (Option-cases (lookup n vols)) [
    | inl absent ↦
        subst (λ r. Done g volmap vols w r)
          (sym (subscribe_all-skip g n ns volmap vols w (inr absent)))
          (subscribe_all-Done g ns volmap vols w)
    | inr (v, there) ↦ elim (Option-cases (subscribe_insert g v w).2) [
      | inl fine ↦
          subst (λ r. Done g volmap vols w r)
            (sym (subscribe_all-goes_on g n ns volmap v vols w fresh there fine))
            (subscribe_insert-IsSubscribed g n volmap v vols _ w _ fresh there (
              subscribe_all-Done g ns (n ∷ volmap) (insert n (subscribe_insert g v w).0 vols)
                (subscribe_insert g v w).1))
      | inr (x, fails) ↦
          subst (λ r. Done g volmap vols w r)
            (sym (subscribe_all-fails g n ns volmap v x vols w fresh there fails))
            (subscribe_insert-IsSubscribed g n volmap v vols _ w _ fresh there (
              none-IsSubscribed g (n ∷ volmap) (insert n (subscribe_insert g v w).0 vols)
                (subscribe_insert g v w).1))
    ]
  ]
]
