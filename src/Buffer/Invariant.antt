-- ===== src/Buffer/Invariant.antt =====
-- daemon/buffer/buffer.go: what holds after any interleaving of callers and handlers.
use hyperd.Prelude.{
  ℕ, zero, suc, ◌+◌, ◌≤◌, ◌≡◌, ◌≢◌, refl, sym, ap, ◌∙◌, arith, String, Bool, true, false, not, ◌||◌,
  Option, none, some, List, [], ◌∷◌, ◌++◌, length, length-append, filter, any, any-append, ==_iff,
  string_eq, if◌then◌else◌,
}
use hyperd.Registry.{PodList}
use hyperd.Buffer.{
  Request, same_key, Handler, creating, idle, Buffer, new_buffer, remove_container_buffer,
  remove_container_buffer_all, add_container_buffer, arrive, cons_rest, take_out, hand_over,
  created, take_next, Action, arrives, hands_over, finishes, goes_on, finish, go_on, enter, step,
  run,
}

abbrev pub queued : Request → List Request → Bool
queued r rs = any (λ q. same_key q r) rs

abbrev pub handles : Request → List Handler → Bool
handles r [] = false
handles r (creating q ∷ hs) = same_key q r || handles r hs
handles r (idle ∷ hs) = handles r hs

-- Somebody has the container: a caller, the channel or a handler.
abbrev pub held : Request → Buffer → Bool
held r b = queued r b.arriving || (queued r b.channel || handles r b.handlers)

pub record IsBounded (max : ℕ) (b : Buffer) : Type 0 where
  pub goroutines : b.goroutines_limit + length b.handlers ≡ max
  pub channel_fits : length b.channel ≤ b.capacity
  pub all_busy : b.channel ≢ [] → b.goroutines_limit ≡ 0
  pub none_lost : (r : Request) → queued r b.container_buffers ≡ true → held r b ≡ true

queued-remove :
    (r q : Request) (rs : List Request)
    → queued q (filter (λ c. not (same_key c r)) rs) ≡ true
    → (queued q rs ≡ true) × (same_key r q ≡ false)
queued-remove r q [] h = absurd (ground arith)
queued-remove r q (c ∷ rs) h = ground (
  arith,
  queued-remove r q rs,
  ==_iff c.id r.id,
  ==_iff c.pod r.pod,
  ==_iff c.id q.id,
  ==_iff c.pod q.pod,
  ==_iff r.id q.id,
  ==_iff r.pod q.pod,
)

-- The goroutine that is taken out stood somewhere between the others.
abbrev Split {ℓ} : {A : Type ℓ} → List A → A → List A → Type ℓ
Split {A = A} xs x rest =
    (pre : List A) × (post : List A) × (xs ≡ pre ++ x ∷ post) × (rest ≡ pre ++ post)

cons_rest-Split {ℓ} :
    {A : Type ℓ} (y : A) (xs : List A) (o : Option (A × List A)) (x : A) (rest : List A)
    → ((z : A) (zs : List A) → o ≡ some (z, zs) → Split xs z zs)
    → cons_rest y o ≡ some (x, rest)
    → Split (y ∷ xs) x rest
cons_rest-Split y xs none x rest f h = absurd (ground arith)
cons_rest-Split y xs (some (z, zs)) x rest f h =
    let (pre, post, e, r) = f z zs refl in
    (y ∷ pre, post, ground (arith, e, r), ground (arith, e, r))

take_out-Split {ℓ} :
    {A : Type ℓ} (n : ℕ) (xs : List A) (x : A) (rest : List A)
    → take_out n xs ≡ some (x, rest)
    → Split xs x rest
take_out-Split n [] x rest h = absurd (ground arith)
take_out-Split zero (y ∷ xs) x rest h = ([], xs, ground arith, ground arith)
take_out-Split (suc n) (y ∷ xs) x rest h =
    cons_rest-Split y xs (take_out n xs) x rest (take_out-Split n xs) h

handles-append :
    (q : Request) (hs ks : List Handler)
    → handles q (hs ++ ks) ≡ (if handles q hs then true else handles q ks)
handles-append q [] ks = refl
handles-append q (creating r ∷ hs) ks = ground (arith, handles-append q hs ks)
handles-append q (idle ∷ hs) ks = handles-append q hs ks

Split-handles :
    (q : Request) (hs : List Handler) (x : Handler) (rest : List Handler)
    → Split hs x rest
    → (handles q hs ≡ handles q (x ∷ rest)) × (length hs ≡ length rest + 1)
Split-handles q hs idle rest (pre, post, e, r) = (
  ap (handles q) e
      ∙ handles-append q pre (idle ∷ post)
      ∙ sym (ap (handles q) r ∙ handles-append q pre post),
  ap length e ∙ omega (arith, length-append pre (idle ∷ post), length-append pre post, ap length r),
)
Split-handles q hs (creating c) rest (pre, post, e, r) = (
  ap (handles q) e
      ∙ ground (
        arith,
        handles-append q pre (creating c ∷ post),
        ap (handles q) r,
        handles-append q pre post,
      ),
  ap length e
      ∙ omega (arith, length-append pre (creating c ∷ post), length-append pre post, ap length r),
)

Split-queued :
    (q : Request) (rs : List Request) (x : Request) (rest : List Request)
    → Split rs x rest
    → queued q rs ≡ queued q (x ∷ rest)
Split-queued q rs x rest (pre, post, e, r) =
    ap (queued q) e
    ∙ ground (
      arith,
      any-append (λ c. same_key c q) pre (x ∷ post),
      ap (queued q) r,
      any-append (λ c. same_key c q) pre post,
    )

-- A container that is removed from the pod's need not be held.
remove-IsBounded :
    (max : ℕ) (r : Request) (b b' : Buffer)
    → IsBounded max b
    → b'.goroutines_limit + length b'.handlers ≡ max
    → length b'.channel ≤ b'.capacity
    → (b'.channel ≢ [] → b'.goroutines_limit ≡ 0)
    → b'.container_buffers ≡ filter (λ c. not (same_key c r)) b.container_buffers
    → ((q : Request) → same_key r q ≡ false → held q b ≡ true → held q b' ≡ true)
    → IsBounded max b'
remove-IsBounded max r b b' i g f a e keeps = record {
  goroutines = g;
  channel_fits = f;
  all_busy = a;
  none_lost = λ q h.
      let (was, other) = queued-remove r q b.container_buffers (sym (ap (queued q) e) ∙ h) in
      keeps q other (i.none_lost q was);
}

arrive-IsBounded :
    (max : ℕ) (alive : Bool) (r : Request) (b : Buffer)
    → IsBounded max b
    → IsBounded max (arrive alive r b)
unfolding arrive add_container_buffer remove_container_buffer
arrive-IsBounded max alive r b i = record {
  goroutines = ground (arith, i.goroutines);
  channel_fits = ground (arith, i.channel_fits);
  all_busy = ground (arith, i.all_busy);
  none_lost = λ q. ground (
    arith,
    i.none_lost q,
    queued-remove r q b.container_buffers,
    queued-remove r q (r ∷ filter (λ c. not (same_key c r)) b.container_buffers),
  );
}

same_key-reads : (a q : Request) → same_key a q ≡ true → (a.id ≡ q.id) × (a.pod ≡ q.pod)
same_key-reads a q h = ground (arith, ==_iff a.id q.id, ==_iff a.pod q.pod)

nonempty-append : (rs : List Request) (r : Request) → rs ++ r ∷ [] ≢ []
nonempty-append [] r e = ground arith
nonempty-append (x ∷ rs) r e = ground arith

hand_over-IsBounded :
    (max : ℕ) (r : Request) (rest : List Request) (b : Buffer)
    → Split b.arriving r rest
    → IsBounded max b
    → IsBounded max (hand_over r (record b { arriving = rest }))
unfolding hand_over remove_container_buffer_all remove_container_buffer
hand_over-IsBounded max r rest b s i = record {
  goroutines = ground (arith, i.goroutines);
  channel_fits = ground (arith, i.channel_fits, length-append b.channel (r ∷ []));
  all_busy = ground (arith, i.all_busy);
  none_lost = λ q. ground (
    arith,
    i.none_lost q,
    Split-queued q b.arriving r rest s,
    queued-remove r q b.container_buffers,
    any-append (λ c. same_key c q) b.channel (r ∷ []),
  );
}

created-IsBounded :
    (max : ℕ) (r : Request) (result : Option String) (hs : List Handler) (b : Buffer)
    → Split b.handlers (creating r) hs
    → IsBounded max b
    → IsBounded max (created r result (record b { handlers = idle ∷ hs }))
unfolding created remove_container_buffer_all remove_container_buffer
created-IsBounded max r none hs b s i = record {
  goroutines = omega (arith, i.goroutines, (Split-handles r b.handlers (creating r) hs s).1);
  channel_fits = i.channel_fits;
  all_busy = i.all_busy;
  none_lost = λ q. ground (
    arith,
    i.none_lost q,
    (Split-handles q b.handlers (creating r) hs s).0,
    queued-remove r q b.container_buffers,
  );
}
created-IsBounded max r (some id) hs b s i = record {
  goroutines = omega (arith, i.goroutines, (Split-handles r b.handlers (creating r) hs s).1);
  channel_fits = i.channel_fits;
  all_busy = i.all_busy;
  none_lost = λ q. ground (
    arith,
    i.none_lost q,
    (Split-handles q b.handlers (creating r) hs s).0,
    queued-remove r q b.container_buffers,
  );
}

take_next-IsBounded :
    (max : ℕ) (hs : List Handler) (b : Buffer)
    → Split b.handlers idle hs
    → IsBounded max b
    → IsBounded max (take_next (record b { handlers = hs }))
unfolding take_next
take_next-IsBounded max hs b s i = record {
  goroutines = ground (arith, i.goroutines, length_of);
  channel_fits = ground (arith, i.channel_fits);
  all_busy = ground (arith, i.all_busy);
  none_lost = λ q. ground (arith, i.none_lost q, (Split-handles q b.handlers idle hs s).0);
}
  where
    length_of : length b.handlers ≡ length hs + 1
    length_of =
        ap length s.2
        ∙ omega (arith, length-append s.0 (idle ∷ s.1), length-append s.0 s.1, ap length s.3)

finish-IsBounded :
    (max : ℕ) (o : Option (Handler × List Handler)) (result : Option String) (b : Buffer)
    → ((x : Handler) (hs : List Handler) → o ≡ some (x, hs) → Split b.handlers x hs)
    → IsBounded max b
    → IsBounded max (finish o result b)
finish-IsBounded max none result b f i = i
finish-IsBounded max (some (idle, hs)) result b f i = i
finish-IsBounded max (some (creating r, hs)) result b f i =
    created-IsBounded max r result hs b (f (creating r) hs refl) i

go_on-IsBounded :
    (max : ℕ) (o : Option (Handler × List Handler)) (b : Buffer)
    → ((x : Handler) (hs : List Handler) → o ≡ some (x, hs) → Split b.handlers x hs)
    → IsBounded max b
    → IsBounded max (go_on o b)
go_on-IsBounded max none b f i = i
go_on-IsBounded max (some (creating r, hs)) b f i = i
go_on-IsBounded max (some (idle, hs)) b f i = take_next-IsBounded max hs b (f idle hs refl) i

enter-IsBounded :
    (max : ℕ) (o : Option (Request × List Request)) (b : Buffer)
    → ((x : Request) (rs : List Request) → o ≡ some (x, rs) → Split b.arriving x rs)
    → IsBounded max b
    → IsBounded max (enter o b)
enter-IsBounded max none b f i = i
enter-IsBounded max (some (r, rs)) b f i = hand_over-IsBounded max r rs b (f r rs refl) i

step-IsBounded : (max : ℕ) (a : Action) (b : Buffer) → IsBounded max b → IsBounded max (step a b)
unfolding step
step-IsBounded max (arrives alive r) b i = arrive-IsBounded max alive r b i
step-IsBounded max (hands_over n) b i =
    enter-IsBounded max (take_out n b.arriving) b (take_out-Split n b.arriving) i
step-IsBounded max (finishes n result) b i =
    finish-IsBounded max (take_out n b.handlers) result b (take_out-Split n b.handlers) i
step-IsBounded max (goes_on n) b i =
    go_on-IsBounded max (take_out n b.handlers) b (take_out-Split n b.handlers) i

run-IsBounded :
    (max : ℕ) (acts : List Action) (b : Buffer) → IsBounded max b → IsBounded max (run acts b)
unfolding run
run-IsBounded max [] b i = i
run-IsBounded max (a ∷ acts) b i = run-IsBounded max acts (step a b) (step-IsBounded max a b i)

new_buffer-IsBounded :
    (max size : ℕ) (pl : PodList) (b : Buffer) → new_buffer max size pl ≡ some b → IsBounded max b
unfolding new_buffer
new_buffer-IsBounded max size pl b h = record {
  goroutines = ground arith;
  channel_fits = ground arith;
  all_busy = λ e. absurd (e (ground arith));
  none_lost = λ q e. ground arith;
}

-- After any interleaving of callers and handlers on a new buffer: the goroutines that run and
-- those that may still be started are together the configured number; the channel holds at most
-- as many containers as fit; containers wait in it only while no goroutine may be started; and
-- every container that is pending for a pod is with a caller, in the channel or with a handler.
pub run-new_buffer :
    (max size : ℕ) (pl : PodList) (b : Buffer) (acts : List Action)
    → new_buffer max size pl ≡ some b
    → IsBounded max (run acts b)
run-new_buffer max size pl b acts h =
    run-IsBounded max acts b (new_buffer-IsBounded max size pl b h)
