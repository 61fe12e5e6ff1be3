-- ===== src/Env/Multi.antt =====
-- engine/env.go: the lists of values that InitMultiMap writes are those that MultiMap reads.
use hyperd.Prelude.{
  ◌≡◌, refl, sym, ap, ◌∙◌, arith, true, false, Bool-cases, inl, inr, Option, none, some, List, [],
  ◌∷◌, ◌++◌, append_assoc, append-nil, Dict, lookup, insert, lookup-insert, ◌==◌, ==_iff,
  if◌then◌else◌,
}
use hyperd.Prelude.Text.{Text, text_eq}
use hyperd.Names.{cut}
use hyperd.Env.{Env, set, values, multi_loop, multi_map, set_all, init_loop, init_multi_map}
use hyperd.Env.Access.{has, cut-set}

-- Each key stands once and has no "=".
abbrev pub AreKeys : Dict Text (List Text) → Type 0
AreKeys [] = Unit
AreKeys ((k, vs) ∷ m) = (has k ≡ false) × (lookup k m ≡ none) × AreKeys m

abbrev add : Text → Text → Dict Text (List Text) → Dict Text (List Text)
add k v m = insert k (values (lookup k m) ++ v ∷ []) m

abbrev add_all : Text → List Text → Dict Text (List Text) → Dict Text (List Text)
add_all k [] m = m
add_all k (v ∷ vs) m = add_all k vs (add k v m)

abbrev add_map : Dict Text (List Text) → Dict Text (List Text) → Dict Text (List Text)
add_map [] m = m
add_map ((k, vs) ∷ d) m = add_map d (add_all k vs m)

abbrev go_on : Env → Option (Dict Text (List Text)) → Option (Dict Text (List Text))
go_on ys none = none
go_on ys (some m) = multi_loop ys m

multi_loop-append :
    (xs ys : Env) (m0 : Dict Text (List Text))
    → multi_loop (xs ++ ys) m0 ≡ go_on ys (multi_loop xs m0)
unfolding multi_loop
multi_loop-append [] ys m0 = refl
multi_loop-append (x ∷ xs) ys m0 = of_cut (cut b'=' x).1 refl (multi_loop-append xs ys)
  where
    of_cut :
        (o : Option Text)
        → (cut b'=' x).1 ≡ o
        → ((m : Dict Text (List Text)) → multi_loop (xs ++ ys) m ≡ go_on ys (multi_loop xs m))
        → multi_loop (x ∷ (xs ++ ys)) m0 ≡ go_on ys (multi_loop (x ∷ xs) m0)
    of_cut none e ih = rw (e, multi_loop) refl
    of_cut (some v) e ih = rw (e, multi_loop) (ih _)

multi_loop-set :
    (k v : Text) (env : Env) (m0 m : Dict Text (List Text))
    → has k ≡ false
    → multi_loop env m0 ≡ some m
    → multi_loop (set k v env) m0 ≡ some (add k v m)
unfolding set
multi_loop-set k v env m0 m h e =
    multi_loop-append env ((k ++ b'=' ∷ v) ∷ []) m0
    ∙ (ap (go_on ((k ++ b'=' ∷ v) ∷ [])) e ∙ (unfold multi_loop in ground (arith, cut-set k v h)))

multi_loop-set_all :
    (k : Text) (vs : List Text) (env : Env) (m0 m : Dict Text (List Text))
    → has k ≡ false
    → multi_loop env m0 ≡ some m
    → multi_loop (set_all k vs env) m0 ≡ some (add_all k vs m)
unfolding set_all
multi_loop-set_all k [] env m0 m h e = e
multi_loop-set_all k (v ∷ vs) env m0 m h e =
    multi_loop-set_all k vs (set k v env) m0 (add k v m) h (multi_loop-set k v env m0 m h e)

multi_loop-init_loop :
    (d : Dict Text (List Text)) (env : Env) (m : Dict Text (List Text))
    → AreKeys d
    → multi_loop env [] ≡ some m
    → multi_loop (init_loop d env) [] ≡ some (add_map d m)
unfolding init_loop
multi_loop-init_loop [] env m h e = e
multi_loop-init_loop ((k, vs) ∷ d) env m (h, absent, hs) e =
    multi_loop-init_loop d (set_all k vs env) (add_all k vs m) hs
      (multi_loop-set_all k vs env [] m h e)

values-add :
    (key k v : Text) (m : Dict Text (List Text))
    → values (lookup key (add k v m)) ≡ values (lookup key m) ++ (if k == key then v ∷ [] else [])
values-add key k v m = ground (
  arith,
  lookup-insert k key (values (lookup k m) ++ v ∷ []) m,
  ==_iff k key,
  append-nil (values (lookup key m)),
)

values-add_all :
    (key k : Text) (vs : List Text) (m : Dict Text (List Text))
    → values (lookup key (add_all k vs m)) ≡ values (lookup key m) ++ (if k == key then vs else [])
values-add_all key k [] m = ground (arith, append-nil (values (lookup key m)))
values-add_all key k (v ∷ vs) m =
    values-add_all key k vs (add k v m)
    ∙ (ap (λ (t : List Text). t ++ (if k == key then vs else [])) (values-add key k v m)
        ∙ elim (Bool-cases (k == key)) [
          | inl e ↦ rw e (append_assoc (values (lookup key m)) (v ∷ []) vs)
          | inr e ↦ rw e (append-nil _)
        ])

values-add_map :
    (key : Text) (d m : Dict Text (List Text))
    → AreKeys d
    → values (lookup key (add_map d m)) ≡ values (lookup key m) ++ values (lookup key d)
unfolding lookup
values-add_map key [] m h = sym (append-nil (values (lookup key m)))
values-add_map key ((k, vs) ∷ d) m (h, absent, hs) =
    values-add_map key d (add_all k vs m) hs
    ∙ (ap (λ (t : List Text). t ++ values (lookup key d)) (values-add_all key k vs m)
        ∙ elim (Bool-cases (k == key)) [
          | inl e ↦ rw e (own e)
          | inr e ↦ rw e (append_assoc (values (lookup key m)) [] (values (lookup key d)))
        ])
  where
    own :
        k == key ≡ true
        → (values (lookup key m) ++ vs) ++ values (lookup key d) ≡ values (lookup key m) ++ vs
    own e = ground (arith, e, absent, ==_iff k key, append-nil (values (lookup key m) ++ vs))

-- Of a map that InitMultiMap writes, whose keys are distinct and without "=", MultiMap does not
-- panic, and finds under each key the list of values that the map has there.
pub multi_map-init_multi_map :
    (d : Dict Text (List Text))
    → AreKeys d
    → (m : Dict Text (List Text)) × (multi_map (init_multi_map d) ≡ some m)
      × ((key : Text) → values (lookup key m) ≡ values (lookup key d))
unfolding multi_map init_multi_map
multi_map-init_multi_map d h = (
  add_map d [],
  (unfold multi_loop in multi_loop-init_loop d [] [] h refl),
  λ key. unfold lookup in values-add_map key d [] h,
)
