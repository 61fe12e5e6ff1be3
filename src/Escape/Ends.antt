-- ===== src/Escape/Ends.antt =====
-- daemon/pod/container.go: the copy ends.
use hyperd.Prelude.{
  ℕ, zero, suc, ◌+◌, ◌≤◌, ◌<◌, ◌≡◌, ◌⊎◌, inl, inr, refl, arith, Bool, true, false, Option, some,
  List, [], ◌∷◌, ◌++◌, length, if◌then◌else◌,
}
use hyperd.Prelude.Text.{Text}
use hyperd.Escape.{
  Error, Read, next, or_default, Preserved, kept, detached, key_loop, copy_loop, copy_escapable,
  write_round, end_round, or_again, unless_detached, Outcome, is_nil,
}

-- The number of reads left.
abbrev left : Preserved → ℕ
left (kept p e rs) = length rs
left (detached rs) = length rs

length-next : (rs : List Read) → length (next rs).1 ≤ length rs
length-next [] = omega arith
length-next (r ∷ rs) = omega arith

key_loop-left :
    (keys : Text) (r : Read) (p : Text) (rs : List Read) → left (key_loop keys r p rs) ≤ length rs
unfolding key_loop
key_loop-left [] r p rs = omega arith
key_loop-left (k ∷ []) r p rs = ground arith
key_loop-left (k ∷ j ∷ ks) r p rs =
    ground (arith, key_loop-left (j ∷ ks) (next rs).0 (p ++ r.bytes) (next rs).1, length-next rs)

module _ {W : Type 0} (write : Text → W → W × ℕ × Option Error) where
  abbrev Returns : Option (Outcome write) → Type 0
  Returns o = (outcome : Outcome write) × (o ≡ some outcome)

  or_again-Returns :
      (step : Outcome write ⊎ (ℕ × W)) (again : ℕ → W → Option (Outcome write))
      → ((n : ℕ) (w : W) → Returns (again n w))
      → Returns (or_again write step again)
  or_again-Returns (inl outcome) again h = (outcome, refl)
  or_again-Returns (inr (n, w)) again h = h n w

  unless_detached-Returns :
      (p : Preserved) (w : W) (k : Text → Option Error → List Read → Option (Outcome write))
      → ((b : Text) (e : Option Error) (rs : List Read) → length rs ≤ left p → Returns (k b e rs))
      → Returns (unless_detached write p w k)
  unless_detached-Returns (detached rs) w k h = (_, refl)
  unless_detached-Returns (kept b e rs) w k h = h b e rs (omega arith)

  if-Returns :
      (b : Bool) (x y : Option (Outcome write))
      → Returns x
      → Returns y
      → Returns (if b then x else y)
  if-Returns true x y hx hy = hx
  if-Returns false x y hx hy = hy

  copy_loop-Returns :
      (fuel : ℕ) (keys : Text) (written : ℕ) (w : W) (rs : List Read)
      → length rs < fuel
      → Returns (copy_loop write fuel keys written w rs)
  unfolding copy_loop
  copy_loop-Returns zero keys written w rs h = absurd (omega arith)
  copy_loop-Returns (suc fuel) keys written w [] h = unfold end_round in (_, refl)
  copy_loop-Returns (suc fuel) keys written w (r ∷ rs) h =
      if-Returns (is_nil r.bytes) _ _
        (or_again-Returns (end_round write r.error written w rs) _
          (λ n w'. copy_loop-Returns fuel keys n w' rs (omega arith)))
        (unless_detached-Returns (key_loop keys r [] rs) w _ (λ b e later le.
          or_again-Returns (write_round write b e written w later) _ (λ n w'.
            copy_loop-Returns fuel keys n w' later
              (omega (arith, le, key_loop-left keys r [] rs)))))

  -- Whatever the source returns from its reads and the destination answers to the writes, the
  -- copy ends, with any detach keys: one round more than the reads is enough.
  pub copy_escapable_ends :
      (keys : Text) (w : W) (rs : List Read)
      → (outcome : Outcome write) × (copy_escapable write keys w rs ≡ some outcome)
  unfolding copy_escapable
  copy_escapable_ends keys w rs =
      copy_loop-Returns (length rs + 1) (or_default keys) 0 w rs (omega arith)
