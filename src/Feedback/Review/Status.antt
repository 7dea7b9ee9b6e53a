-- ===== src/Feedback/Review/Status.antt =====
-- `set_status`: the status of a flag only moves forward.
use ai_coaching_agent.Common.{
  ℕ, ◌<◌, ◌≡◌, refl, sym, subst, ap, ◌∙◌, Bool, true, false, ◌⊎◌, inl, inr, some, Bool-cases, ◌==◌,
  ==_iff, arith,
}
use ai_coaching_agent.Common.Dict.{lookup, lookup-insert, insert}
use ai_coaching_agent.Common.Effect.{
  Triple, weaken_error, weaken_result, Triple-world, attempt-Triple, bind-Triple, gets-Triple,
  modify-Triple, pure-Triple, raise-Triple,
}
use ai_coaching_agent.Feedback.Records.{
  ContentReviewFlag, FlagStatus, opened, reviewed, confirmed, corrected,
}
use ai_coaching_agent.Feedback.Store.{World, Env, ServiceError, missing, get_flag, update_flag}
use ai_coaching_agent.Feedback.Store.Reach.{IsStable, ask-Keeps, after_reach, found-Triple}
use ai_coaching_agent.Feedback.Review.{
  allowed, same_status, flag_missing, change_status, set_status,
}

-- The order of the statuses.
abbrev pub rank : FlagStatus → ℕ
rank opened = 0
rank reviewed = 1
rank confirmed = 2
rank corrected = 3

allowed-rank : (a b : FlagStatus) → allowed a b ≡ true → rank a < rank b
unfolding allowed
allowed-rank opened opened e = absurd (ground arith)
allowed-rank opened reviewed e = omega arith
allowed-rank opened confirmed e = omega arith
allowed-rank opened corrected e = omega arith
allowed-rank reviewed opened e = absurd (ground arith)
allowed-rank reviewed reviewed e = absurd (ground arith)
allowed-rank reviewed confirmed e = omega arith
allowed-rank reviewed corrected e = omega arith
allowed-rank confirmed opened e = absurd (ground arith)
allowed-rank confirmed reviewed e = absurd (ground arith)
allowed-rank confirmed confirmed e = absurd (ground arith)
allowed-rank confirmed corrected e = omega arith
allowed-rank corrected opened e = absurd (ground arith)
allowed-rank corrected reviewed e = absurd (ground arith)
allowed-rank corrected confirmed e = absurd (ground arith)
allowed-rank corrected corrected e = absurd (ground arith)

-- A flag is stored under its own identifier.
abbrev pub IsKeyed : World → Type 0
IsKeyed w = (k : ℕ) (f : ContentReviewFlag) → lookup k w.flags ≡ some f → f.flag_id ≡ k

-- What became of a flag: nothing, or the requested status, which comes later.
abbrev pub HasMoved : ℕ → FlagStatus → ℕ → ContentReviewFlag → ContentReviewFlag → Type 0
HasMoved flag_id status k f g =
    (g ≡ f) ⊎ ((k ≡ flag_id) × (g.status ≡ status) × (rank f.status < rank status))

abbrev pub IsMoved : ℕ → FlagStatus → World → World → Type 0
IsMoved flag_id status w0 w =
    (k : ℕ) (f : ContentReviewFlag)
    → lookup k w0.flags ≡ some f
    → (g : ContentReviewFlag) × (lookup k w.flags ≡ some g) × HasMoved flag_id status k f g

module _ (env : Env) (flag_id : ℕ) (status : FlagStatus) (w0 : World) where
  abbrev IsSame : World → Type 0
  IsSame w = w.flags ≡ w0.flags

  IsSame-IsStable : IsStable IsSame
  IsSame-IsStable w n h = h

  abbrev Moved : World → Type 0
  Moved = IsMoved flag_id status w0

  Same-Moved : (w : World) → IsSame w → Moved w
  Same-Moved w same k f e = (f, ap (lookup k) same ∙ e, inl refl)

  insert-Moved :
      (f g : ContentReviewFlag) (w : World)
      → f.flag_id ≡ flag_id
      → lookup flag_id w0.flags ≡ some f
      → g.status ≡ status
      → rank f.status < rank status
      → g.flag_id ≡ f.flag_id
      → IsSame w
      → Moved (record w { flags = insert g.flag_id g w.flags })
  insert-Moved f g w own at new later own' same k h e = elim (Bool-cases (g.flag_id == k)) [
    | inl here ↦
        let key : k ≡ flag_id = sym ((==_iff g.flag_id k).0 here) ∙ own' ∙ own in
        let one : some f ≡ some h = sym at ∙ ap (λ x. lookup x w0.flags) (sym key) ∙ e in
        let found : f ≡ h = ground (arith, one) in
        (
          g,
          lookup-insert g.flag_id k g w.flags ∙ (rw here refl),
          inr (
            key,
            new,
            subst (λ (x : ContentReviewFlag). rank x.status < rank status) found later,
          ),
        )
    | inr other ↦
        (h, lookup-insert g.flag_id k g w.flags ∙ (rw other (ap (lookup k) same ∙ e)), inl refl)
  ]

  abbrev Found : ContentReviewFlag → World → Type 0
  Found f w = IsSame w × (lookup flag_id w0.flags ≡ some f)

  get_flag-Found : Triple IsSame (get_flag env flag_id) Found (λ _. IsSame)
  unfolding get_flag
  get_flag-Found = after_reach IsSame IsSame-IsStable env (
      bind-Triple (λ row w. IsSame w × (lookup flag_id w0.flags ≡ row))
        (gets-Triple _ (λ w h. (h, ap (lookup flag_id) (sym h))))
        (λ row. found-Triple IsSame (λ w. lookup flag_id w0.flags) missing row (λ w h. h)))

  update_flag-Moved :
      (f g : ContentReviewFlag)
      → f.flag_id ≡ flag_id
      → g.status ≡ status
      → rank f.status < rank status
      → g.flag_id ≡ f.flag_id
      → Triple (Found f) (update_flag env g) (λ _. Moved) (λ _. Moved)
  unfolding update_flag
  update_flag-Moved f g own new later own' =
      weaken_error (λ e w h. Same-Moved w h.0)
        (after_reach (Found f) (λ w n h. h) env
          (bind-Triple (λ row w. Found f w × (lookup g.flag_id w.flags ≡ row))
            (gets-Triple _ (λ w h. (h, refl)))
            (λ row.
              bind-Triple (λ _. Found f)
                (weaken_result (λ a w h. h.0)
                  (found-Triple (Found f) (λ w. lookup g.flag_id w.flags) missing row (λ w h. h)))
                (λ _.
                  bind-Triple (λ _. Moved)
                    (modify-Triple _ (λ w h. insert-Moved f g w own h.1 new later own' h.0))
                    (λ _. pure-Triple g (λ w h. h))))))

  changed :
      (b c : Bool) (f : ContentReviewFlag)
      → same_status status f.status ≡ b
      → allowed f.status status ≡ c
      → f.flag_id ≡ flag_id
      → Triple (Found f) (change_status env status f) (λ _. Moved) (λ _. Moved)
  unfolding change_status
  changed true c f e e' own = rw e (pure-Triple f (λ w h. Same-Moved w h.0))
  changed false false f e e' own = rw (e, e') (raise-Triple _ (λ w h. Same-Moved w h.0))
  changed false true f e e' own =
      rw (e, e')
        (bind-Triple (λ _. Found f)
          (weaken_error (λ e w h. Same-Moved w h.0) (ask-Keeps (Found f) (λ w n h. h) env.now))
          (λ now. update_flag-Moved f _ own refl (allowed-rank f.status status e') refl))

  change_status-Moved :
      IsKeyed w0
      → (f : ContentReviewFlag)
      → Triple (Found f) (change_status env status f) (λ _. Moved) (λ _. Moved)
  change_status-Moved keyed f = record {
    run = λ w h.
        (changed (same_status status f.status) (allowed f.status status) f refl refl
            (keyed flag_id f h.1)).run
          w h;
  }

  missing-Moved :
      (e : ServiceError)
      → Triple IsSame (flag_missing {A = ContentReviewFlag} e) (λ _. Moved) (λ _. Moved)
  missing-Moved e = raise-Triple _ Same-Moved

  set_status-Moved :
      IsKeyed w0 → Triple IsSame (set_status env flag_id status) (λ _. Moved) (λ _. Moved)
  unfolding set_status
  set_status-Moved keyed =
      attempt-Triple Found (λ _. IsSame) get_flag-Found missing-Moved (change_status-Moved keyed)

-- Whatever `set_status` returns or raises, every stored flag is there as it was, or it is the flag
-- asked for and has the status asked for, which comes later than the one it had.
pub set_status-forward :
    (env : Env) (flag_id : ℕ) (status : FlagStatus) (w : World)
    → IsKeyed w
    → IsMoved flag_id status w (set_status env flag_id status w).1
set_status-forward env flag_id status w keyed =
    Triple-world (set_status-Moved env flag_id status w keyed) w refl
