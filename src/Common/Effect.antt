-- ===== src/Common/Effect.antt =====
-- Calls that change a state and may raise: what was written before a raise stays written. A triple
-- says what a call that starts in P leaves: Q of its result, or E when it raises.
use mathlib.Core.Path.{◌≡◌, refl, subst}
use native.Mathlib.Omega.{arith}
use mathlib.Core.List.{List, [], ◌∷◌}
use ai_coaching_agent.Common.Outcome.{Result, ok, err}

abbrev pub Effect : Type 0 → Type 0 → Type 0 → Type 0
Effect S E A = S → Result E A × S

module _ {S E : Type 0} where
  abbrev pub pure : {A : Type 0} → A → Effect S E A
  pure a s = (ok a, s)

  abbrev pub raise : {A : Type 0} → E → Effect S E A
  raise e s = (err e, s)

  abbrev pub gets : {A : Type 0} → (S → A) → Effect S E A
  gets f s = (ok (f s), s)

  abbrev pub modify : (S → S) → Effect S E (Unit {0})
  modify f s = (ok tt, f s)

  abbrev pub of_result : {A : Type 0} → Result E A → Effect S E A
  of_result r s = (r, s)

  abbrev pub handle :
      {A B : Type 0} → (E → Effect S E B) → (A → Effect S E B) → Result E A × S → Result E B × S
  handle h k (ok a, s) = k a s
  handle h k (err e, s) = h e s

  -- `try: a = m` with a handler for what it raises, and then `k`, which the handler does not guard.
  unfoldable pub attempt :
      {A B : Type 0} → Effect S E A → (E → Effect S E B) → (A → Effect S E B) → Effect S E B
  attempt m h k s = handle h k (m s)

  infixl 5 ◌>>=◌ ◌>>◌
  abbrev pub ◌>>=◌ : {A B : Type 0} → Effect S E A → (A → Effect S E B) → Effect S E B
  m >>= k = attempt m raise k

  abbrev pub ◌>>◌ : {B : Type 0} → Effect S E (Unit {0}) → Effect S E B → Effect S E B
  m >> k = m >>= λ _. k

  -- `for x in xs`, with what each pass returns.
  unfoldable pub for_each : {X A : Type 0} → (X → Effect S E A) → List X → Effect S E (List A)
  for_each f [] = pure []
  for_each f (x ∷ xs) = do a ← f x; rest ← for_each f xs; pure (a ∷ rest)

  abbrev pub Post : {A : Type 0} → (A → S → Type 0) → (E → S → Type 0) → Result E A × S → Type 0
  Post Q F (ok a, s) = Q a s
  Post Q F (err e, s) = F e s

  pub record Triple {A : Type 0} (P : S → Type 0) (m : Effect S E A) (Q : A → S → Type 0)
      (F : E → S → Type 0) : Type 0 where
    pub run : (s : S) → P s → Post Q F (m s)

  -- A call keeps a predicate, whether it returns or raises.
  abbrev pub Keeps : {A : Type 0} → (S → Type 0) → Effect S E A → Type 0
  Keeps P m = Triple P m (λ _. P) (λ _. P)

  handle-Post :
      {A B : Type 0} (Q : A → S → Type 0) (R : B → S → Type 0) (F G : E → S → Type 0)
      (h : E → Effect S E B) (k : A → Effect S E B)
      → ((e : E) → Triple (F e) (h e) R G)
      → ((a : A) → Triple (Q a) (k a) R G)
      → (r : Result E A × S) → Post Q F r
      → Post R G (handle h k r)
  handle-Post Q R F G h k handled continued (ok a, s) p = (continued a).run s p
  handle-Post Q R F G h k handled continued (err e, s) p = (handled e).run s p

  pub attempt-Triple :
      {A B : Type 0} {P : S → Type 0} {R : B → S → Type 0} (Q : A → S → Type 0) (F : E → S → Type 0)
      {G : E → S → Type 0} {m : Effect S E A} {h : E → Effect S E B} {k : A → Effect S E B}
      → Triple P m Q F
      → ((e : E) → Triple (F e) (h e) R G)
      → ((a : A) → Triple (Q a) (k a) R G)
      → Triple P (attempt m h k) R G
  unfolding attempt
  attempt-Triple {R = R} Q F {G = G} {m = m} {h = h} {k = k} first handled continued = record {
    run = λ s p. handle-Post Q R F G h k handled continued (m s) (first.run s p);
  }

  pub weaken :
      {A : Type 0} {P P' : S → Type 0} {Q : A → S → Type 0} {F : E → S → Type 0} {m : Effect S E A}
      → Triple P m Q F
      → ((s : S) → P' s → P s)
      → Triple P' m Q F
  weaken t h = record { run = λ s p. t.run s (h s p) }

  Post-weaken :
      {A : Type 0} (Q : A → S → Type 0) (F G : E → S → Type 0)
      → ((e : E) (s : S) → F e s → G e s)
      → (r : Result E A × S) → Post Q F r
      → Post Q G r
  Post-weaken Q F G h (ok a, s) p = p
  Post-weaken Q F G h (err e, s) p = h e s p

  pub weaken_error :
      {A : Type 0} {P : S → Type 0} {Q : A → S → Type 0} {F G : E → S → Type 0} {m : Effect S E A}
      → ((e : E) (s : S) → F e s → G e s)
      → Triple P m Q F
      → Triple P m Q G
  weaken_error {Q = Q} {F = F} {G = G} {m = m} h t = record {
    run = λ s p. Post-weaken Q F G h (m s) (t.run s p);
  }

  Post-weaken_result :
      {A : Type 0} (Q R : A → S → Type 0) (F : E → S → Type 0)
      → ((a : A) (s : S) → Q a s → R a s)
      → (r : Result E A × S) → Post Q F r
      → Post R F r
  Post-weaken_result Q R F h (ok a, s) p = h a s p
  Post-weaken_result Q R F h (err e, s) p = p

  pub weaken_result :
      {A : Type 0} {P : S → Type 0} {Q R : A → S → Type 0} {F : E → S → Type 0} {m : Effect S E A}
      → ((a : A) (s : S) → Q a s → R a s)
      → Triple P m Q F
      → Triple P m R F
  weaken_result {Q = Q} {R = R} {F = F} {m = m} h t = record {
    run = λ s p. Post-weaken_result Q R F h (m s) (t.run s p);
  }

  pub pure-Triple :
      {A : Type 0} {P : S → Type 0} {Q : A → S → Type 0} {F : E → S → Type 0} (a : A)
      → ((s : S) → P s → Q a s)
      → Triple P (pure a) Q F
  pure-Triple a h = record { run = h }

  pub raise-Triple :
      {A : Type 0} {P : S → Type 0} {Q : A → S → Type 0} {F : E → S → Type 0} (e : E)
      → ((s : S) → P s → F e s)
      → Triple P (raise e) Q F
  raise-Triple e h = record { run = h }

  pub gets-Triple :
      {A : Type 0} {P : S → Type 0} {Q : A → S → Type 0} {F : E → S → Type 0} (f : S → A)
      → ((s : S) → P s → Q (f s) s)
      → Triple P (gets f) Q F
  gets-Triple f h = record { run = h }

  pub modify-Triple :
      {P : S → Type 0} {Q : Unit {0} → S → Type 0} {F : E → S → Type 0} (f : S → S)
      → ((s : S) → P s → Q tt (f s))
      → Triple P (modify f) Q F
  modify-Triple f h = record { run = h }

  pub bind-Triple :
      {A B : Type 0} {P : S → Type 0} {R : B → S → Type 0} (Q : A → S → Type 0) {F : E → S → Type 0}
      {m : Effect S E A} {k : A → Effect S E B}
      → Triple P m Q F
      → ((a : A) → Triple (Q a) (k a) R F)
      → Triple P (m >>= k) R F
  bind-Triple Q {F = F} first continued =
      attempt-Triple Q F first (λ e. raise-Triple e (λ s q. q)) continued

  pub bind-Keeps :
      {A B : Type 0} {P : S → Type 0} {m : Effect S E A} {k : A → Effect S E B}
      → Keeps P m
      → ((a : A) → Keeps P (k a))
      → Keeps P (m >>= k)
  bind-Keeps {P = P} first continued = bind-Triple (λ _. P) first continued

  pub for_each-Keeps :
      {X A : Type 0} (P : S → Type 0) (f : X → Effect S E A)
      → ((x : X) → Keeps P (f x))
      → (xs : List X) → Keeps P (for_each f xs)
  unfolding for_each
  for_each-Keeps P f each [] = pure-Triple [] (λ s p. p)
  for_each-Keeps P f each (x ∷ xs) =
      bind-Keeps (each x)
        (λ a. bind-Keeps (for_each-Keeps P f each xs) (λ rest. pure-Triple (a ∷ rest) (λ s p. p)))

  Post-world : {A : Type 0} (P : S → Type 0) (r : Result E A × S) → Post (λ _. P) (λ _. P) r → P r.1
  Post-world P (ok a, s) p = p
  Post-world P (err e, s) p = p

  -- What a call leaves, whether it returns or raises, holds of the state after it.
  pub Triple-world :
      {A : Type 0} {P Q : S → Type 0} {m : Effect S E A}
      → Triple P m (λ _. Q) (λ _. Q)
      → (s : S) → P s
      → Q (m s).1
  Triple-world {Q = Q} {m = m} t s p = Post-world Q (m s) (t.run s p)

  Post-of : {A : Type 0} (P : S → Type 0) (r : Result E A × S) → P r.1 → Post (λ _. P) (λ _. P) r
  Post-of P (ok a, s) p = p
  Post-of P (err e, s) p = p

  pub Keeps-of :
      {A : Type 0} {P : S → Type 0} {m : Effect S E A} → ((s : S) → P s → P (m s).1) → Keeps P m
  Keeps-of {P = P} {m = m} h = record { run = λ s p. Post-of P (m s) (h s p) }

  Post-returned :
      {A : Type 0} (Q : A → S → Type 0) (r : Result E A × S)
      → Post Q (λ e s. ⊥) r
      → (a : A) × (r.0 ≡ ok a) × Q a r.1
  Post-returned Q (ok a, s) p = (a, refl, p)
  Post-returned Q (err e, s) p = absurd p

  -- A call that cannot raise returns a result.
  pub Triple-returned :
      {A : Type 0} {P : S → Type 0} {Q : A → S → Type 0} {m : Effect S E A}
      → Triple P m Q (λ e s. ⊥)
      → (s : S) → P s
      → (a : A) × ((m s).0 ≡ ok a) × Q a (m s).1
  Triple-returned {Q = Q} {m = m} t s p = Post-returned Q (m s) (t.run s p)

  Post-result :
      {A : Type 0} (Q : A → S → Type 0) (F : E → S → Type 0) (r : Result E A × S) (a : A)
      → Post Q F r
      → r.0 ≡ ok a
      → Q a r.1
  Post-result Q F (ok b, s) a p e = subst (λ x. Q x s) (ground (arith, e)) p
  Post-result Q F (err b, s) a p e = absurd (ground (arith, e))

  -- What is so of a result that was returned.
  pub Triple-result :
      {A : Type 0} {P : S → Type 0} {Q : A → S → Type 0} {F : E → S → Type 0} {m : Effect S E A}
      → Triple P m Q F
      → (s : S) → P s
      → (a : A) → (m s).0 ≡ ok a
      → Q a (m s).1
  Triple-result {Q = Q} {F = F} {m = m} t s p a e = Post-result Q F (m s) a (t.run s p) e
