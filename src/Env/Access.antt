-- ===== src/Env/Access.antt =====
-- engine/env.go: Get, Map and Set agree.
use hyperd.Prelude.{
  ◌≡◌, refl, sym, ap, ◌∙◌, arith, Bool, true, false, Bool-cases, inl, inr, Option, none, some, [],
  ◌∷◌, ◌++◌, any, Dict, lookup, insert, lookup-insert, ◌==◌, nat_beq, ==_refl, if◌then◌else◌,
}
use hyperd.Prelude.Text.{Text, text_eq, codes}
use hyperd.Names.{cut}
use hyperd.Env.{Env, or_else, get_loop, get, map_loop, env_map, set, get_bool, set_bool}

abbrev pub or_empty : Option Text → Text
or_empty none = []
or_empty (some t) = t

abbrev pub has : Text → Bool
has t = any (λ c. nat_beq c b'=') t

get_loop-cons :
    (key value kv : Text) (kvs : Env) (v : Text)
    → (cut b'=' kv).1 ≡ some v
    → get_loop key value (kv ∷ kvs) ≡ get_loop key (or_else ((cut b'=' kv).0 == key) v value) kvs
unfolding get_loop
get_loop-cons key value kv kvs v e = rw e refl

map_loop-cons :
    (kv : Text) (kvs : Env) (m0 : Dict Text Text) (v : Text)
    → (cut b'=' kv).1 ≡ some v
    → map_loop (kv ∷ kvs) m0 ≡ map_loop kvs (insert (cut b'=' kv).0 v m0)
unfolding map_loop
map_loop-cons kv kvs m0 v e = rw (e, map_loop) refl

or_empty-insert :
    (key k v : Text) (m : Dict Text Text)
    → or_else (k == key) v (or_empty (lookup key m)) ≡ or_empty (lookup key (insert k v m))
or_empty-insert key k v m = elim (Bool-cases (k == key)) [
  | inl e ↦ rw (lookup-insert k key v m, e) refl
  | inr e ↦ rw (lookup-insert k key v m, e) refl
]

get_loop-map_loop :
    (key : Text) (env : Env) (m0 m : Dict Text Text)
    → map_loop env m0 ≡ some m
    → get_loop key (or_empty (lookup key m0)) env ≡ or_empty (lookup key m)
unfolding get_loop map_loop
get_loop-map_loop key [] m0 m h = ground (arith, h)
get_loop-map_loop key (kv ∷ kvs) m0 m h = of_cut (cut b'=' kv).1 refl (get_loop-map_loop key kvs)
  where
    of_cut :
        (o : Option Text)
        → (cut b'=' kv).1 ≡ o
        → ((m1 m2 : Dict Text Text)
            → map_loop kvs m1 ≡ some m2
            → get_loop key (or_empty (lookup key m1)) kvs ≡ or_empty (lookup key m2))
        → get_loop key (or_empty (lookup key m0)) (kv ∷ kvs) ≡ or_empty (lookup key m)
    of_cut none e ih = absurd (ground (arith, h, e))
    of_cut (some v) e ih =
        get_loop-cons key _ kv kvs v e
        ∙ (rw (or_empty-insert key (cut b'=' kv).0 v m0)
            (ih _ m (sym (map_loop-cons kv kvs m0 v e) ∙ h)))

-- Get finds what Map finds, where Map does not panic: the last value, or the empty text.
pub get-env_map :
    (key : Text) (env : Env) (m : Dict Text Text)
    → env_map env ≡ some m
    → get key env ≡ or_empty (lookup key m)
unfolding get env_map
get-env_map key env m h = unfold lookup in get_loop-map_loop key env [] m h

pub cut-set :
    (key value : Text) → has key ≡ false → cut b'=' (key ++ b'=' ∷ value) ≡ (key, some value)
cut-set [] value h = refl
cut-set (c ∷ key) value h = ground (arith, h, cut-set key value)

get_loop-append :
    (key : Text) (xs ys : Env) (value : Text)
    → get_loop key value (xs ++ ys) ≡ get_loop key (get_loop key value xs) ys
unfolding get_loop
get_loop-append key [] ys value = refl
get_loop-append key (x ∷ xs) ys value = get_loop-append key xs ys _

or_else-if : (b : Bool) (v value : Text) → or_else b v value ≡ (if b then v else value)
or_else-if true v value = refl
or_else-if false v value = refl

-- After a Set with a key that has no "=", Get finds the value under this key, and under every other
-- what it found before.
pub get-set :
    (key value k : Text) (env : Env)
    → has key ≡ false
    → get k (set key value env) ≡ (if key == k then value else get k env)
unfolding get set
get-set key value k env h =
    let e = cut-set key value h in
    get_loop-append k env ((key ++ b'=' ∷ value) ∷ []) []
    ∙ (get_loop-cons k _ (key ++ b'=' ∷ value) [] value (ap (λ p. p.1) e)
        ∙ (unfold get_loop in (rw e (or_else-if (key == k) value _))))

pub get-set_same :
    (key value : Text) (env : Env) → has key ≡ false → get key (set key value env) ≡ value
get-set_same key value env h = get-set key value key env h ∙ rw (==_refl key) refl

get_bool-set_bool :
    (key : Text) (b : Bool) (env : Env) → has key ≡ false → get_bool key (set_bool key b env) ≡ b
unfolding get_bool set_bool
get_bool-set_bool key true env h = rw (get-set_same key (codes "1") env h) refl
get_bool-set_bool key false env h = rw (get-set_same key (codes "0") env h) refl
