-- ===== src/Placement/Pending.antt =====
-- daemon/pod/container.go, volume.go: which volumes a container subscribes to.
use hyperd.Prelude.{
  ℕ, ◌+◌, ◌≡◌, inl, inr, refl, sym, subst, ap, arith, String, true, false, Bool-cases, ◌==◌, ==_iff,
  string_eq, nat_eq, Option, none, some, Option-cases, List, [], ◌∷◌, lookup, insert, lookup-insert,
  if◌then◌else◌,
}
use hyperd.Volume.{created, inserting, Error, Volume, Groups, add_one, subscribe_insert}
use hyperd.Volume.Notify.{count, count-append}
use hyperd.Placement.{Volumes, member, is_nil, subscribe_all}
use hyperd.Placement.Subscribing.{
  subscriptions, subscribe_all-skip, subscribe_all-fails, subscribe_all-goes_on,
}

-- One for a volume that is not inserted yet, and has no error.
abbrev pub pending : Option Volume → ℕ
pending none = 0
pending (some v) = elim v.status [ created ↦ 1 | inserting ↦ 1 | _ ↦ 0 ]

subscribe_insert-pending :
    (g : ℕ) (v : Volume) (w : Groups)
    → (subscribe_insert g v w).2 ≡ none
    → count g (subscribe_insert g v w).0.insert_subscribers
      ≡ count g v.insert_subscribers + pending (some v)
unfolding subscribe_insert add_one
subscribe_insert-pending g v w h = ground (arith, h, count-append g g v.insert_subscribers)

-- The new subscriptions to a volume of the name, when those of `volmap` are made.
abbrev pub wanted : List String → List String → String → Option Volume → ℕ
wanted volmap ns n o = if member n volmap then 0 else if member n ns then pending o else 0

abbrev Each : ℕ → List String → List String → Volumes → Volumes → String → Type 0
Each g ns volmap vols vols' n =
    subscriptions g (lookup n vols')
    ≡ subscriptions g (lookup n vols) + wanted volmap ns n (lookup n vols)

Each-skip :
    (g : ℕ) (m : String) (ns volmap : List String) (vols vols' : Volumes) (n : String)
    → wanted volmap (m ∷ []) m (lookup m vols) ≡ 0
    → Each g ns volmap vols vols' n
    → Each g (m ∷ ns) volmap vols vols' n
Each-skip g m ns volmap vols vols' n h i = elim (Bool-cases (m == n)) [
  | inl e ↦
      let same = (==_iff m n).0 e in
      ground
        (arith, i, e, subst (λ (k : String). wanted volmap (m ∷ []) k (lookup k vols) ≡ 0) same h)
  | inr e ↦ ground (arith, e, i)
]

Each-goes_on :
    (g : ℕ) (m : String) (ns volmap : List String) (v : Volume) (vols vols' : Volumes) (w : Groups)
    (n : String)
    → member m volmap ≡ false
    → lookup m vols ≡ some v
    → (subscribe_insert g v w).2 ≡ none
    → Each g ns (m ∷ volmap) (insert m (subscribe_insert g v w).0 vols) vols' n
    → Each g (m ∷ ns) volmap vols vols' n
Each-goes_on g m ns volmap v vols vols' w n fresh there fine i = elim (Bool-cases (m == n)) [
  | inl e ↦
      let same = (==_iff m n).0 e in
      ground (
        arith,
        i,
        e,
        ap (subscriptions g) (subst (λ (k : String). lookup k vols ≡ some v) same there),
        ap pending (subst (λ (k : String). lookup k vols ≡ some v) same there),
        subst (λ (k : String). member k volmap ≡ false) same fresh,
        ap (subscriptions g) (lookup-insert m n (subscribe_insert g v w).0 vols),
        subscribe_insert-pending g v w fine,
      )
  | inr e ↦ ground (
    arith,
    e,
    i,
    ap (subscriptions g) (lookup-insert m n (subscribe_insert g v w).0 vols),
    ap pending (lookup-insert m n (subscribe_insert g v w).0 vols),
  )
]

-- Without an error, each volume that the spec names and that is pending gets one subscription.
pub subscribe_all-wanted :
    (g : ℕ) (ns volmap : List String) (vols : Volumes) (w : Groups)
    → (subscribe_all g ns volmap vols w).3 ≡ none
    → (n : String) → Each g ns volmap vols (subscribe_all g ns volmap vols w).1 n
subscribe_all-wanted g [] volmap vols w h n = unfold subscribe_all in ground arith
subscribe_all-wanted g (m ∷ ns) volmap vols w h n = elim (Bool-cases (member m volmap)) [
  | inl known ↦
      let e = subscribe_all-skip g m ns volmap vols w (inl known) in
      subst (λ r. Each g (m ∷ ns) volmap vols r.1 n) (sym e)
        (Each-skip g m ns volmap vols _ n (ground (arith, known))
          (subscribe_all-wanted g ns volmap vols w (subst (λ r. r.3 ≡ none) e h) n))
  | inr fresh ↦ elim (Option-cases (lookup m vols)) [
    | inl absent ↦
        let e = subscribe_all-skip g m ns volmap vols w (inr absent) in
        subst (λ r. Each g (m ∷ ns) volmap vols r.1 n) (sym e)
          (Each-skip g m ns volmap vols _ n (ground (arith, fresh, ap pending absent))
            (subscribe_all-wanted g ns volmap vols w (subst (λ r. r.3 ≡ none) e h) n))
    | inr (v, there) ↦ elim (Option-cases (subscribe_insert g v w).2) [
      | inl fine ↦
          let e = subscribe_all-goes_on g m ns volmap v vols w fresh there fine in
          subst (λ r. Each g (m ∷ ns) volmap vols r.1 n) (sym e)
            (Each-goes_on g m ns volmap v vols _ w n fresh there fine (
              subscribe_all-wanted g ns (m ∷ volmap) (insert m (subscribe_insert g v w).0 vols)
                (subscribe_insert g v w).1 (subst (λ r. r.3 ≡ none) e h) n))
      | inr (x, fails) ↦ absurd (
          ground (
            arith,
            h,
            ap (λ r. r.3) (subscribe_all-fails g m ns volmap v x vols w fresh there fails),
          ))
    ]
  ]
]

-- A container that has looked for no volume has changed nothing.
abbrev pub Unchanged :
    List String → Volumes → Groups → List String × Volumes × Groups × Option Error → Type 0
Unchanged volmap vols w (seen, vols', w', e) =
    is_nil seen ≡ true → (is_nil volmap ≡ true) × (vols' ≡ vols) × (w' ≡ w)

pub subscribe_all-Unchanged :
    (g : ℕ) (ns volmap : List String) (vols : Volumes) (w : Groups)
    → Unchanged volmap vols w (subscribe_all g ns volmap vols w)
subscribe_all-Unchanged g [] volmap vols w = unfold subscribe_all in λ h. (h, refl, refl)
subscribe_all-Unchanged g (m ∷ ns) volmap vols w = elim (Bool-cases (member m volmap)) [
  | inl known ↦
      subst (Unchanged volmap vols w) (sym (subscribe_all-skip g m ns volmap vols w (inl known)))
        (subscribe_all-Unchanged g ns volmap vols w)
  | inr fresh ↦ elim (Option-cases (lookup m vols)) [
    | inl absent ↦
        subst (Unchanged volmap vols w) (sym (subscribe_all-skip g m ns volmap vols w (inr absent)))
          (subscribe_all-Unchanged g ns volmap vols w)
    | inr (v, there) ↦ elim (Option-cases (subscribe_insert g v w).2) [
      | inl fine ↦
          subst (Unchanged volmap vols w)
            (sym (subscribe_all-goes_on g m ns volmap v vols w fresh there fine))
            (λ h. absurd (
              ground (
                arith,
                subscribe_all-Unchanged g ns (m ∷ volmap) (insert m (subscribe_insert g v w).0 vols)
                    (subscribe_insert g v w).1 h,
              )))
      | inr (x, fails) ↦
          subst (Unchanged volmap vols w)
            (sym (subscribe_all-fails g m ns volmap v x vols w fresh there fails))
            (λ h. absurd (ground (arith, h)))
    ]
  ]
]
