-- ===== src/Migration/Kept.antt =====
-- daemon/pod/migration.go: the records of volumes that setupVolumes copies to the id of the spec, and
-- which outlive the purge.
use hyperd.Prelude.{
  ◌≡◌, ◌≢◌, refl, sym, ap, ◌∙◌, subst, arith, ◌⊎◌, inl, inr, Bool, true, false, Bool-cases, Option,
  none, some, List, [], ◌∷◌, ◌++◌, any, lookup, ◌==◌, ==_iff, Result, ok, err,
}
use hyperd.Prelude.Text.{Text, text_eq}
use hyperd.Store.{Store, Disk, has_prefix, key_volume, prefix_volume, update_pod_volume}
use hyperd.Store.Laws.{lookup-update, lookup-update_self, has_prefix-append, key_volume-cancel}
use hyperd.Migration.{
  Volume, Error, panicked, copy_record, copied, changed, Drivers, next_driver, volume_loop,
}
use hyperd.Migration.Purge.{other_key}

module _ (disk : Disk) (pod id name info : Text)
    (apart : (x : Text) → has_prefix pod (id ++ b'-' ∷ x) ≡ false) where
  abbrev pub Given : Store → Type 0
  Given d = lookup (key_volume pod name) d ≡ some info

  abbrev pub Written : Store → Type 0
  Written d = lookup (key_volume id name) d ≡ some info

  update-Given : (x i : Text) (d : Store) → Given d → Given (update_pod_volume disk id x i d).0
  unfolding update_pod_volume
  update-Given x i d g =
      lookup-update disk (key_volume id x) i d (key_volume pod name)
      ∙ (rw
          (other_key (prefix_volume pod) (key_volume id x) (key_volume pod name)
            (has_prefix-append pod (b'-' ∷ name)) (apart x))
          g)

  update-Written :
      (x i : Text) (d : Store)
      → lookup (key_volume pod x) d ≡ some i
      → Given d
      → (update_pod_volume disk id x i d).1 ≡ true
      → Written d
      → Written (update_pod_volume disk id x i d).0
  unfolding update_pod_volume
  update-Written x i d l g done w = elim (Bool-cases (key_volume id x == key_volume id name)) [
    | inl e ↦
        let same : x ≡ name =
          key_volume-cancel id x name ((==_iff (key_volume id x) (key_volume id name)).0 e) in
        let value : some i ≡ some info =
          sym l ∙ (ap (λ (t : Text). lookup (key_volume pod t) d) same ∙ g) in
        lookup-update disk (key_volume id x) i d (key_volume id name) ∙ (rw e (rw done value))
    | inr n ↦ lookup-update disk (key_volume id x) i d (key_volume id name) ∙ (rw n w)
  ]

  update_pod_volume_self :
      (x i : Text) (d : Store)
      → (update_pod_volume disk id x i d).1 ≡ true
      → lookup (key_volume id x) (update_pod_volume disk id x i d).0 ≡ some i
  unfolding update_pod_volume
  update_pod_volume_self x i d = lookup-update_self disk (key_volume id x) i d

  copy_record-none :
      (x : Text) (d : Store)
      → lookup (key_volume pod x) d ≡ none
      → copy_record disk pod id x d ≡ (d, true)
  unfolding copy_record
  copy_record-none x d e = rw (e, copy_record) refl

  copy_record-some :
      (x i : Text) (d : Store)
      → lookup (key_volume pod x) d ≡ some i
      → copy_record disk pod id x d ≡ update_pod_volume disk id x i d
  unfolding copy_record
  copy_record-some x i d e = rw (e, copy_record) refl

  -- A round that does not fail leaves the legacy record, and the copy where it stood or where the
  -- round is that of the volume.
  copy_record-round :
      (x : Text) (d : Store)
      → Given d
      → (copy_record disk pod id x d).1 ≡ true
      → Given (copy_record disk pod id x d).0
        × ((x ≡ name) ⊎ Written d → Written (copy_record disk pod id x d).0)
  copy_record-round x d g done = of_record (lookup (key_volume pod x) d) refl
    where
      of_none : none ≢ some info
      of_none e = ground (arith, e)

      written :
          (i : Text)
          → lookup (key_volume pod x) d ≡ some i
          → (update_pod_volume disk id x i d).1 ≡ true
          → x ≡ name
          → Written (update_pod_volume disk id x i d).0
      written i e ok_now same =
          ap (λ (t : Text). lookup (key_volume id t) (update_pod_volume disk id x i d).0) (sym same)
          ∙ (update_pod_volume_self x i d ok_now
              ∙ (sym e ∙ (ap (λ (t : Text). lookup (key_volume pod t) d) same ∙ g)))

      of_record :
          (o : Option Text)
          → lookup (key_volume pod x) d ≡ o
          → Given (copy_record disk pod id x d).0
            × ((x ≡ name) ⊎ Written d → Written (copy_record disk pod id x d).0)
      of_record none e =
          let c = sym (ap (λ r. r.0) (copy_record-none x d e)) in
          (
            subst Given c g,
            λ given. elim given [
              | inl same ↦ absurd (
                  of_none (sym (ap (λ (t : Text). lookup (key_volume pod t) d) (sym same) ∙ e) ∙ g))
              | inr w ↦ subst Written c w
            ],
          )
      of_record (some i) e =
          let c = sym (ap (λ r. r.0) (copy_record-some x i d e)) in
          let ok_now = sym (ap (λ r. r.1) (copy_record-some x i d e)) ∙ done in
          (
            subst Given c (update-Given x i d g),
            λ given. elim given [
              | inl same ↦ subst Written c (written i e ok_now same)
              | inr w ↦ subst Written c (update-Written x i d e g ok_now w)
            ],
          )

  copied-ok :
      (v : Volume) (first : Store × Bool) (rest : Store × Result Error (List Volume)) (d : Store)
      (vs : List Volume)
      → copied v first rest ≡ (d, ok vs)
      → (first.1 ≡ true) × (rest.0 ≡ d) × (ws : List Volume) × (rest.1 ≡ ok ws)
  copied-ok v (f, true) (r, err e) d vs h = absurd (ground (arith, ap (λ p. p.1) h))
  copied-ok v (f, true) (r, ok ws) d vs h = (refl, ap (λ p. p.0) h, ws, refl)
  copied-ok v (f, false) rest d vs h = absurd (ground (arith, ap (λ p. p.1) h))

  volume_loop-panic :
      (v : Volume) (vs : List Volume) (drivers : Drivers) (db : Store)
      → next_driver drivers ≡ none
      → volume_loop disk pod id (v ∷ vs) drivers db ≡ (db, err panicked)
  unfolding volume_loop
  volume_loop-panic v vs drivers db q = rw (q, volume_loop) refl

  volume_loop-step :
      (v : Volume) (vs : List Volume) (drivers : Drivers) (db : Store) (dr : Option Text)
      (ds : Drivers)
      → next_driver drivers ≡ some (dr, ds)
      → volume_loop disk pod id (v ∷ vs) drivers db
        ≡ copied
            (changed pod id dr v)
            (copy_record disk pod id v.name db)
            (volume_loop disk pod id vs ds (copy_record disk pod id v.name db).0)
  unfolding volume_loop
  volume_loop-step v vs drivers db dr ds q = rw (q, volume_loop) refl

  pairs :
      (r : Store × Result Error (List Volume)) (d : Store) (ws : List Volume)
      → r.0 ≡ d
      → r.1 ≡ ok ws
      → r ≡ (d, ok ws)
  pairs r d ws e f = λ i. (e i, f i)

  -- Rounds that do not fail leave the copy, where it stood or one of the volumes has the name.
  pub volume_loop-Written :
      (vs : List Volume) (drivers : Drivers) (db : Store)
      → Given db
      → (any (λ v. v.name == name) vs ≡ true) ⊎ Written db
      → (d : Store) (ws : List Volume) → volume_loop disk pod id vs drivers db ≡ (d, ok ws)
      → Written d
  unfolding volume_loop
  volume_loop-Written [] drivers db g (inl among) d ws h = absurd (ground (arith, among))
  volume_loop-Written [] drivers db g (inr w) d ws h = subst Written (ap (λ r. r.0) h) w
  volume_loop-Written (v ∷ vs) drivers db g given d ws h =
      of_next (next_driver drivers) refl (volume_loop-Written vs)
    where
      ready :
          (t : Store)
          → ((v.name ≡ name) ⊎ Written db → Written t)
          → (any (λ v. v.name == name) vs ≡ true) ⊎ Written t
      ready t f = elim given [
        | inr w ↦ inr (f (inr w))
        | inl among ↦ elim (Bool-cases (v.name == name)) [
          | inl same ↦ inr (f (inl ((==_iff v.name name).0 same)))
          | inr differs ↦ inl (ground (arith, among, differs))
        ]
      ]

      of_next :
          (o : Option (Option Text × Drivers))
          → next_driver drivers ≡ o
          → ((ds : Drivers) (t : Store)
              → Given t
              → (any (λ v. v.name == name) vs ≡ true) ⊎ Written t
              → (d : Store) (ws : List Volume) → volume_loop disk pod id vs ds t ≡ (d, ok ws)
              → Written d)
          → Written d
      of_next none q ih =
          absurd (ground (arith, ap (λ r. r.1) (sym (volume_loop-panic v vs drivers db q) ∙ h)))
      of_next (some (dr, ds)) q ih =
          let first = copy_record disk pod id v.name db in
          let parts =
            copied-ok (changed pod id dr v) first (volume_loop disk pod id vs ds first.0) d ws
              (sym (volume_loop-step v vs drivers db dr ds q) ∙ h) in
          let round = copy_record-round v.name db g parts.0 in
          ih ds first.0 round.0 (ready first.0 round.1) d parts.2
            (pairs _ d parts.2 parts.1 parts.3)
