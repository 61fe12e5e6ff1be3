-- ===== src/Escape/Keys.antt =====
-- daemon/pod/container.go: the inner loop of copyEscapable over the detach keys, on a source
-- whose reads have no error.
use hyperd.Prelude.{
  ℕ, ◌≡◌, ◌≢◌, ◌⊎◌, inl, inr, refl, sym, ap, ◌∙◌, arith, true, Bool-cases, none, some, List, [],
  ◌∷◌, ◌++◌, All, append_assoc, append-nil,
}
use hyperd.Prelude.Text.{Text}
use hyperd.Escape.{eof, Read, next, end_of_file, is_key, Preserved, kept, detached, key_loop}

abbrev pub bytes_of : List Read → Text
bytes_of [] = []
bytes_of (r ∷ rs) = r.bytes ++ bytes_of rs

-- The keys as a terminal sends them: a read for each.
abbrev pub typed : Text → List Read
typed [] = []
typed (k ∷ ks) = record { bytes = k ∷ []; error = none } ∷ typed ks

-- The read has no error.
abbrev pub IsPlain : Read → Type 0
IsPlain r = r.error ≡ none

pub bytes_of-append : (xs ys : List Read) → bytes_of (xs ++ ys) ≡ bytes_of xs ++ bytes_of ys
bytes_of-append [] ys = refl
bytes_of-append (x ∷ xs) ys =
    ap (λ t. x.bytes ++ t) (bytes_of-append xs ys)
    ∙ sym (append_assoc x.bytes (bytes_of xs) (bytes_of ys))

-- A read that the source can return, with what it returns later.
abbrev pub Comes : Read → List Read → Type 0
Comes r rs = IsPlain r ⊎ ((r ≡ end_of_file) × (rs ≡ []))

pub Comes-next : (rs : List Read) → All IsPlain rs → Comes (next rs).0 (next rs).1
Comes-next [] h = inr (refl, refl)
Comes-next (r ∷ rs) h = inl h.0

-- What the loop over the keys returns for a read and the later ones.
abbrev pub KeySpec : Text → Read → Text → List Read → Preserved → Type 0
KeySpec keys r p rs (kept b e left) =
    (used : List Read) × (rs ≡ used ++ left)
    × (b ≡ p ++ (r.bytes ++ bytes_of used))
    × ((e ≡ none) ⊎ ((e ≡ some eof) × (left ≡ [])))
KeySpec keys r p rs (detached left) =
    (used : List Read) × (rs ≡ used ++ left) × (typed keys ≡ r ∷ used)

kept-KeySpec :
    (keys : Text) (r : Read) (p : Text) (rs : List Read)
    → Comes r rs
    → KeySpec keys r p rs (kept (p ++ r.bytes) r.error rs)
kept-KeySpec keys r p rs c = ([], refl, ap (λ t. p ++ t) (sym (append-nil r.bytes)), error_of c)
  where
    error_of : Comes r rs → (r.error ≡ none) ⊎ ((r.error ≡ some eof) × (rs ≡ []))
    error_of (inl e) = inl e
    error_of (inr (e, l)) = inr (ap (λ x. x.error) e, l)

bytes-typed : (b : Text) (k : ℕ) → is_key b k ≡ true → b ≡ k ∷ []
bytes-typed [] k h = ground arith
bytes-typed (x ∷ []) k h = ground arith
bytes-typed (x ∷ y ∷ b) k h = ground arith

is_key-typed :
    (r : Read) (k : ℕ) (rs : List Read)
    → Comes r rs
    → is_key r.bytes k ≡ true
    → record { bytes = k ∷ []; error = none } ≡ r
is_key-typed r k rs (inl e) h = ground (arith, bytes-typed r.bytes k h, e)
is_key-typed r k rs (inr (e, l)) h = ground (arith, bytes-typed r.bytes k h, e)

KeySpec-next :
    (k : ℕ) (keys : Text) (r : Read) (p : Text) (rs : List Read)
    → All IsPlain rs
    → record { bytes = k ∷ []; error = none } ≡ r
    → (result : Preserved) → KeySpec keys (next rs).0 (p ++ r.bytes) (next rs).1 result
    → KeySpec (k ∷ keys) r p rs result
KeySpec-next k keys r p [] pl t (kept b e left) (used, l, eb, er) =
    (used, l, eb ∙ append_assoc p r.bytes (bytes_of used), er)
KeySpec-next k keys r p (x ∷ rs) pl t (kept b e left) (used, l, eb, er) =
    (x ∷ used, ap (λ ys. x ∷ ys) l, eb ∙ append_assoc p r.bytes (x.bytes ++ bytes_of used), er)
KeySpec-next k keys r p [] pl t (detached left) (used, l, ty) = absurd (first keys ty)
  where
    first : (ks : Text) → typed ks ≢ end_of_file ∷ used
    first [] e = ground arith
    first (c ∷ ks) e = ground arith
KeySpec-next k keys r p (x ∷ rs) pl t (detached left) (used, l, ty) =
    (x ∷ used, ap (λ ys. x ∷ ys) l, ground (arith, t, ty))

pub key_loop-KeySpec :
    (k : ℕ) (keys : Text) (r : Read) (p : Text) (rs : List Read)
    → All IsPlain rs
    → Comes r rs
    → KeySpec (k ∷ keys) r p rs (key_loop (k ∷ keys) r p rs)
unfolding key_loop
key_loop-KeySpec k [] r p rs pl c = elim (Bool-cases (is_key r.bytes k)) [
  | inl e ↦ rw e ([], refl, ap (λ x. x ∷ []) (is_key-typed r k rs c e))
  | inr e ↦ rw e (kept-KeySpec (k ∷ []) r p rs c)
]
key_loop-KeySpec k (j ∷ keys) r p rs pl c = elim (Bool-cases (is_key r.bytes k)) [
  | inl e ↦ rw e (
      KeySpec-next k (j ∷ keys) r p rs pl (is_key-typed r k rs c e)
        (key_loop (j ∷ keys) (next rs).0 (p ++ r.bytes) (next rs).1)
        (key_loop-KeySpec j keys (next rs).0 (p ++ r.bytes) (next rs).1 (later rs pl)
          (Comes-next rs pl)))
  | inr e ↦ rw e (kept-KeySpec (k ∷ j ∷ keys) r p rs c)
]
  where
    later : (l : List Read) → All IsPlain l → All IsPlain (next l).1
    later [] h = tt
    later (x ∷ l) h = h.1
