-- ===== src/Escape/Transparent.antt =====
-- daemon/pod/container.go: what the copy forwards, and when it detaches.
use hyperd.Prelude.{
  ℕ, zero, suc, ◌+◌, ◌≡◌, ◌⊎◌, inl, inr, refl, sym, ap, ◌∙◌, arith, true, Bool-cases, Option, none,
  some, List, [], ◌∷◌, ◌++◌, length, All, append_assoc, append-nil, length-append, subst,
}
use hyperd.Prelude.Text.{Text}
use hyperd.Escape.{
  Error, eof, detach, Read, or_default, Preserved, kept, detached, key_loop, copy_loop,
  copy_escapable, write_round, end_round, or_again, unless_detached, Outcome, is_nil,
}
use hyperd.Escape.Ends.{copy_escapable_ends}
use hyperd.Escape.Keys.{bytes_of, bytes_of-append, typed, IsPlain, KeySpec, key_loop-KeySpec}

All-suffix : (xs ys : List Read) → All IsPlain (xs ++ ys) → All IsPlain ys
All-suffix [] ys h = h
All-suffix (x ∷ xs) ys h = All-suffix xs ys h.1

-- A destination that keeps whatever it is given.
abbrev pub keep : Text → Text → Text × ℕ × Option Error
keep bytes w = (w ++ bytes, length bytes, none)

-- The two ways in which the copy of `rs` can end, from `w` with `n` bytes written.
abbrev pub Copied : Text → ℕ → Text → List Read → ℕ × Option Error × Text × List Read → Type 0
Copied keys n w rs (written, e, w', left) =
    ((e ≡ none) × (w' ≡ w ++ bytes_of rs) × (written ≡ n + length (bytes_of rs)) × (left ≡ []))
    ⊎ ((pre : List Read) × (rs ≡ pre ++ (typed keys ++ left))
        × (e ≡ some detach)
        × (w' ≡ w ++ bytes_of pre))

-- What was copied before a round.
Copied-after :
    (keys : Text) (n m : ℕ) (w v : Text) (used rs : List Read)
    (outcome : ℕ × Option Error × Text × List Read)
    → v ≡ w ++ bytes_of used
    → m ≡ n + length (bytes_of used)
    → Copied keys m v rs outcome
    → Copied keys n w (used ++ rs) outcome
Copied-after keys n m w v used rs (written, e, w', left) hv hm (inl (a, b, c, d)) = inl (
  a,
  b
      ∙ ap (λ t. t ++ bytes_of rs) hv
      ∙ append_assoc w (bytes_of used) (bytes_of rs)
      ∙ ap (λ t. w ++ t) (sym (bytes_of-append used rs)),
  c
      ∙ omega (arith, hm, length-append (bytes_of used) (bytes_of rs))
      ∙ ap (λ t. n + length t) (sym (bytes_of-append used rs)),
  d,
)
Copied-after keys n m w v used rs (written, e, w', left) hv hm (inr (pre, a, b, c)) = inr (
  used ++ pre,
  ap (λ t. used ++ t) a ∙ sym (append_assoc used pre (typed keys ++ left)),
  b,
  c
      ∙ ap (λ t. t ++ bytes_of pre) hv
      ∙ append_assoc w (bytes_of used) (bytes_of pre)
      ∙ ap (λ t. w ++ t) (sym (bytes_of-append used pre)),
)

abbrev Result : Type 0
Result = Outcome keep

some_injective : (a b : Result) → Option.some a ≡ some b → a ≡ b
some_injective a b h = ground arith

Copied-from :
    (keys : Text) (n : ℕ) (w : Text) (rs : List Read) (a b : Result)
    → Option.some a ≡ some b
    → Copied keys n w rs a
    → Copied keys n w rs b
Copied-from keys n w rs a b e h = subst (Copied keys n w rs) (some_injective a b e) h

write_round-keep :
    (b : Text) (e : Option Error) (n : ℕ) (w : Text) (left : List Read)
    → write_round keep b e n w left ≡ end_round keep e (n + length b) (w ++ b) left
unfolding write_round
write_round-keep b e n w left = ground arith

end_round-eof :
    (e : Option Error) (n : ℕ) (w : Text) (left : List Read)
    → e ≡ some eof
    → end_round keep e n w left ≡ inl (n, none, w, left)
unfolding end_round
end_round-eof e n w left h = ground arith

end_round-none :
    (e : Option Error) (n : ℕ) (w : Text) (left : List Read)
    → e ≡ none
    → end_round keep e n w left ≡ inr (n, w)
unfolding end_round
end_round-none e n w left h = ground arith

is_nil-true : (t : Text) → is_nil t ≡ true → t ≡ []
is_nil-true [] z = refl
is_nil-true (c ∷ t) z = absurd (ground arith)

-- A round that reads `r`, with what the later rounds do as `again`.
module _ (keys : Text) (n : ℕ) (w : Text) (r : Read) (rs : List Read) (outcome : Result)
    (again : ℕ → Text → List Read → Option Result)
    (copied : (m : ℕ) (v : Text) (left : List Read)
      → All IsPlain left
      → again m v left ≡ some outcome
      → Copied keys m v left outcome)
    (pl : All IsPlain (r ∷ rs)) where
  empty_round :
      r.bytes ≡ []
      → or_again keep (end_round keep r.error n w rs) (λ m v. again m v rs) ≡ some outcome
      → Copied keys n w (r ∷ rs) outcome
  empty_round z h =
      Copied-after keys n n w w (r ∷ []) rs outcome
        (sym (ap (λ t. w ++ (t ++ [])) z ∙ append-nil w))
        (omega (arith, ap (λ t. n + length (t ++ [])) z))
        (copied n w rs pl.1 (
          ap (λ step. or_again keep step (λ m v. again m v rs))
            (sym (end_round-none r.error n w rs pl.0))
          ∙ h))

  kept_round :
      (b : Text) (e : Option Error) (left used : List Read)
      → rs ≡ used ++ left
      → b ≡ bytes_of (r ∷ used)
      → (e ≡ none) ⊎ ((e ≡ some eof) × (left ≡ []))
      → or_again keep (end_round keep e (n + length b) (w ++ b) left) (λ m v. again m v left)
        ≡ some outcome
      → Copied keys n w (r ∷ rs) outcome
  kept_round b e left used l eb er h =
      subst (λ t. Copied keys n w (r ∷ t) outcome) (sym l)
        (Copied-after keys n (n + length b) w (w ++ b) (r ∷ used) left outcome (ap (λ t. w ++ t) eb)
          (ap (λ t. n + length t) eb) (rest er))
    where
      rest :
          (e ≡ none) ⊎ ((e ≡ some eof) × (left ≡ []))
          → Copied keys (n + length b) (w ++ b) left outcome
      rest (inl z) =
          copied (n + length b) (w ++ b) left (All-suffix used left (subst (All IsPlain) l pl.1)) (
            ap (λ step. or_again keep step (λ m v. again m v left))
              (sym (end_round-none e (n + length b) (w ++ b) left z))
            ∙ h)
      rest (inr (z, nil)) =
          Copied-from keys (n + length b) (w ++ b) left (n + length b, none, w ++ b, left) outcome
            (ap (λ step. or_again keep step (λ m v. again m v left))
                (sym (end_round-eof e (n + length b) (w ++ b) left z))
              ∙ h)
            (inl (
              refl,
              sym (ap (λ t. (w ++ b) ++ bytes_of t) nil ∙ append-nil (w ++ b)),
              omega (arith, ap (λ t. length (bytes_of t)) nil),
              nil,
            ))

  preserved_round :
      (p : Preserved)
      → KeySpec keys r [] rs p
      → unless_detached keep p w
          (λ b e left. or_again keep (write_round keep b e n w left) (λ m v. again m v left))
        ≡ some outcome
      → Copied keys n w (r ∷ rs) outcome
  preserved_round (detached left) (used, l, ty) h =
      Copied-from keys n w (r ∷ rs) (0, some detach, w, left) outcome h
        (inr ([], ap (λ t. r ∷ t) l ∙ sym (ap (λ t. t ++ left) ty), refl, sym (append-nil w)))
  preserved_round (kept b e left) (used, l, eb, er) h = kept_round b e left used l eb er (
      ap (λ step. or_again keep step (λ m v. again m v left)) (sym (write_round-keep b e n w left))
      ∙ h)

copy_loop-Copied :
    (fuel : ℕ) (k : ℕ) (keys : Text) (n : ℕ) (w : Text) (rs : List Read) (outcome : Result)
    → All IsPlain rs
    → copy_loop keep fuel (k ∷ keys) n w rs ≡ some outcome
    → Copied (k ∷ keys) n w rs outcome
unfolding copy_loop
copy_loop-Copied zero k keys n w rs outcome pl h = absurd (ground arith)
copy_loop-Copied (suc fuel) k keys n w [] outcome pl h =
    Copied-from (k ∷ keys) n w [] (n, none, w, []) outcome (unfold end_round in h)
      (inl (refl, sym (append-nil w), omega arith, refl))
copy_loop-Copied (suc fuel) k keys n w (r ∷ rs) outcome pl h = elim (Bool-cases (is_nil r.bytes)) [
  | inl z ↦
      empty_round (k ∷ keys) n w r rs outcome (copy_loop keep fuel (k ∷ keys))
        (λ m v left. copy_loop-Copied fuel k keys m v left outcome) pl (is_nil-true r.bytes z)
        (rw z at h)
  | inr z ↦
      preserved_round (k ∷ keys) n w r rs outcome (copy_loop keep fuel (k ∷ keys))
        (λ m v left. copy_loop-Copied fuel k keys m v left outcome) pl (key_loop (k ∷ keys) r [] rs)
        (key_loop-KeySpec k keys r [] rs pl.1 (inl pl.0)) (rw z at h)
]

-- The copy returns, whatever the detach keys (those by default if none are given), from a source
-- whose reads have no error until the end of file to a destination that keeps all. Either no
-- error is returned, and all the bytes read are forwarded in their order and counted. Or the copy
-- detaches, after reads that were forwarded in their order and then the keys one by one, which
-- were not forwarded; the reads after the keys are left to the source.
pub copy_escapable_transparent :
    (keys w : Text) (rs : List Read)
    → All IsPlain rs
    → (outcome : Result) × (copy_escapable keep keys w rs ≡ some outcome)
      × Copied (or_default keys) 0 w rs outcome
copy_escapable_transparent keys w rs pl =
    let (outcome, e) = copy_escapable_ends keep keys w rs in (outcome, e, with_keys keys outcome e)
  where
    with_keys :
        (ks : Text) (outcome : Result)
        → copy_escapable keep ks w rs ≡ some outcome
        → Copied (or_default ks) 0 w rs outcome
    with_keys [] outcome e =
        copy_loop-Copied (length rs + 1) 16 (17 ∷ []) 0 w rs outcome pl (unfold copy_escapable in e)
    with_keys (k ∷ ks) outcome e =
        copy_loop-Copied (length rs + 1) k ks 0 w rs outcome pl (unfold copy_escapable in e)
