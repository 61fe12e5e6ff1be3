-- ===== src/Exec/Codes.antt =====
-- daemon/pod/exec.go: the codes that the callers of GetExecExitCode get.
use hyperd.Prelude.{
  ℕ, zero, suc, ◌+◌, ◌≡◌, refl, sym, ap, ◌∙◌, subst, arith, Bool, true, false, Bool-cases, inl, inr,
  Option, none, some, List, [], ◌∷◌, ◌++◌, insert, lookup-insert, All, All-append, ==_refl,
}
use hyperd.Prelude.Text.{Text, text_eq}
use hyperd.Prelude.Int.{ℤ, uint8}
use hyperd.Exec.{
  Exec, Execs, Event, start, interrupted, take, put_back, give_up, terminated, step, run,
  get_exec_exit_code,
}

-- The steps of callers.
abbrev pub is_caller : Event → Bool
is_caller start = false
is_caller interrupted = false
is_caller (terminated r) = false
is_caller take = true
is_caller put_back = true
is_caller give_up = true

-- The process has ended with the code `c`: the value is in the channel or with one caller, and every
-- answer is the code.
abbrev pub number : Bool → ℕ
number true = 1
number false = 0

pub record Ended (c : ℕ) (e : Exec) : Type 0 where
  pub code : e.exit_code ≡ c
  pub one : number e.full + e.taken ≡ 1
  pub all : All (λ a. a ≡ c) e.answers

abbrev took : Exec → Exec
took e = record e { full = false; taken = e.taken + 1 }

abbrev pub put : ℕ → Exec → Exec
put n e = record e { full = true; taken = n; answers = e.answers ++ e.exit_code ∷ [] }

some-cancel : (a b : Exec) → some a ≡ some b → a ≡ b
some-cancel a b e = ap (λ (o : Option Exec). elim o [ none ↦ a | some x ↦ x ]) e

step-take : (e : Exec) → e.full ≡ true → step take e ≡ some (took e)
unfolding step
step-take e h = rw (h, step) refl

step-put_back :
    (n : ℕ) (e : Exec) → e.taken ≡ suc n → e.full ≡ false → step put_back e ≡ some (put n e)
unfolding step
step-put_back n e t h = rw (t, step) (rw h refl)

took-Ended : (c : ℕ) (e : Exec) → e.full ≡ true → Ended c e → Ended c (took e)
took-Ended c e h i = record { code = i.code; one = ground (arith, i.one, h); all = i.all }

put-Ended : (c n : ℕ) (e : Exec) → e.taken ≡ suc n → Ended c e → Ended c (put n e)
put-Ended c n e t i = record {
  code = i.code;
  one = ground (arith, i.one, t);
  all = All-append (λ a. a ≡ c) e.answers (e.exit_code ∷ []) i.all (i.code, tt);
}

step-Ended :
    (c : ℕ) (x : Event) (e e' : Exec)
    → is_caller x ≡ true
    → Ended c e
    → step x e ≡ some e'
    → Ended c e'
step-Ended c take e e' h i s = of_full e.full refl
  where
    of_full : (b : Bool) → e.full ≡ b → Ended c e'
    of_full true q =
        subst (Ended c) (some-cancel (took e) e' (sym (step-take e q) ∙ s)) (took-Ended c e q i)
    of_full false q = absurd (unfold step in ground (arith, s, q))
step-Ended c put_back e e' h i s = of_taken e.taken refl e.full refl
  where
    of_taken : (t : ℕ) → e.taken ≡ t → (b : Bool) → e.full ≡ b → Ended c e'
    of_taken zero q b r = absurd (unfold step in ground (arith, s, q))
    of_taken (suc n) q true r = absurd (ground (arith, i.one, q, r))
    of_taken (suc n) q false r =
        subst (Ended c) (some-cancel (put n e) e' (sym (step-put_back n e q r) ∙ s))
          (put-Ended c n e q i)
step-Ended c give_up e e' h i s = unfold step in subst (Ended c) (some-cancel e e' s) i
step-Ended c start e e' h i s = absurd (ground (arith, h))
step-Ended c interrupted e e' h i s = absurd (ground (arith, h))
step-Ended c (terminated r) e e' h i s = absurd (ground (arith, h))

abbrev pub AreCallers : List Event → Type 0
AreCallers xs = All (λ x. is_caller x ≡ true) xs

run-Ended :
    (c : ℕ) (xs : List Event) (e e' : Exec)
    → AreCallers xs
    → Ended c e
    → run xs e ≡ some e'
    → Ended c e'
unfolding run
run-Ended c [] e e' h i s = subst (Ended c) (some-cancel e e' s) i
run-Ended c (x ∷ xs) e e' (h, hs) i s = of_step (step x e) refl (run-Ended c xs)
  where
    of_step :
        (o : Option Exec)
        → step x e ≡ o
        → ((a b : Exec)
            → All (λ x. is_caller x ≡ true) xs
            → Ended c a
            → run xs a ≡ some b
            → Ended c b)
        → Ended c e'
    of_step none q ih = absurd (ground (arith, s, q))
    of_step (some a) q ih = ih a e' hs (step-Ended c x e a h i q) (ground (arith, s, q))

Ended-full : (c : ℕ) (e : Exec) → Ended c e → e.taken ≡ 0 → e.full ≡ true
Ended-full c e i t = elim (Bool-cases e.full) [
  | inl q ↦ q
  | inr q ↦ absurd (ground (arith, i.one, q, t))
]

get_exec_exit_code-Ended :
    (c : ℕ) (id : Text) (e : Exec) (execs : Execs)
    → Ended c e
    → e.taken ≡ 0
    → get_exec_exit_code id (insert id e execs) ≡ (c, none)
unfolding get_exec_exit_code
get_exec_exit_code-Ended c id e execs i t =
    ground (arith, lookup-insert id id e execs, ==_refl id, Ended-full c e i t, i.code)

terminated-Ended :
    (r : ℤ) (e : Exec)
    → e.taken ≡ 0
    → e.answers ≡ []
    → Ended (uint8 r) (record e { exit_code = uint8 r; full = true })
terminated-Ended r e t a = record {
  code = refl;
  one = ground (arith, t);
  all = subst (λ (l : List ℕ). All (λ x. x ≡ uint8 r) l) (sym a) tt;
}

-- When the process of an exec ends, while no caller holds the value of the channel, every caller
-- that is answered afterwards gets the low eight bits of the code, in any interleaving of the
-- callers' steps; a caller that holds the value can put it back; and when none does, a further caller is answered.
pub get_exec_exit_code-run :
    (id : Text) (execs : Execs) (e0 e : Exec) (r : ℤ) (xs : List Event)
    → e0.taken ≡ 0
    → e0.answers ≡ []
    → AreCallers xs
    → run (terminated r ∷ xs) e0 ≡ some e
    → All (λ a. a ≡ uint8 r) e.answers
      × ((n : ℕ) → e.taken ≡ suc n → run (put_back ∷ []) e ≡ some (put n e))
      × (e.taken ≡ 0 → get_exec_exit_code id (insert id e execs) ≡ (uint8 r, none))
unfolding run
get_exec_exit_code-run id execs e0 e r xs t a hs h =
    let i =
      run-Ended (uint8 r) xs (record e0 { exit_code = uint8 r; full = true }) e hs
        (terminated-Ended r e0 t a) (unfold step in h) in
    (
      i.all,
      λ n q. ap again (step-put_back n e q (empty n q i)),
      λ q. get_exec_exit_code-Ended (uint8 r) id e execs i q,
    )
  where
    again : Option Exec → Option Exec
    again o = elim o [ none ↦ none | some x ↦ some x ]

    empty : (n : ℕ) → e.taken ≡ suc n → Ended (uint8 r) e → e.full ≡ false
    empty n q i = elim (Bool-cases e.full) [
      | inl f ↦ absurd (ground (arith, i.one, f, q))
      | inr f ↦ f
    ]
