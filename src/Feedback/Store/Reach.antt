-- ===== src/Feedback/Store/Reach.antt =====
-- What the questions to the outside and the calls of a port keep.
use ai_coaching_agent.Common.{ℕ, ◌≡◌, Option, none, some}
use ai_coaching_agent.Common.Effect.{
  Triple, Keeps, ◌>>=◌, bind-Triple, bind-Keeps, pure-Triple, raise-Triple, attempt-Triple,
}
use ai_coaching_agent.Feedback.Records.{PortError}
use ai_coaching_agent.Feedback.Store.{
  World, Env, Action, ServiceError, port, ask, reach, raise_if, found, on_port, shielded,
}

-- The predicate does not depend on how many questions were asked.
abbrev pub IsStable : (World → Type 0) → Type 0
IsStable P = (w : World) (n : ℕ) → P w → P (record w { asked = n })

module _ (P : World → Type 0) (stable : IsStable P) where
  pub ask-Keeps : {A : Type 0} (answers : ℕ → A) → Keeps P (ask answers)
  unfolding ask
  ask-Keeps answers = record { run = λ w h. stable w _ h }

  raise_if-Keeps : (o : Option PortError) → Keeps P (raise_if o)
  raise_if-Keeps none = pure-Triple tt (λ w h. h)
  raise_if-Keeps (some e) = raise-Triple _ (λ w h. h)

  pub reach-Keeps : (env : Env) → Keeps P (reach env)
  unfolding reach
  reach-Keeps env = bind-Keeps (ask-Keeps env.fails) raise_if-Keeps

  -- After a call of a port, or an answer, the rest starts from the predicate again.
  pub after_reach :
      {A : Type 0} {Q : A → World → Type 0} (env : Env) {m : Action A}
      → Triple P m Q (λ _. P)
      → Triple P (reach env >>= λ _. m) Q (λ _. P)
  after_reach env next = bind-Triple (λ _. P) (reach-Keeps env) (λ _. next)

  -- The same, where only an error of a port is raised.
  raise_if-port :
      {F : ServiceError → World → Type 0} (o : Option PortError)
      → ((e : PortError) (w : World) → P w → F (port e) w)
      → Triple P (raise_if o) (λ _. P) F
  raise_if-port none raised = pure-Triple tt (λ w h. h)
  raise_if-port (some e) raised = raise-Triple _ (raised e)

  pub after_reach_port :
      {A : Type 0} {Q : A → World → Type 0} {F : ServiceError → World → Type 0} (env : Env)
      {m : Action A}
      → ((e : PortError) (w : World) → P w → F (port e) w)
      → Triple P m Q F
      → Triple P (reach env >>= λ _. m) Q F
  unfolding reach ask
  after_reach_port env raised next =
      bind-Triple (λ _. P)
        (bind-Triple (λ _. P) (record { run = λ w h. stable w _ h }) (λ o. raise_if-port o raised))
        (λ _. next)

-- An entry that is required: the call goes on with what is there, or raises.
pub found-Triple :
    {A : Type 0} {F : ServiceError → World → Type 0} (P : World → Type 0) (f : World → Option A)
    (e : PortError) (o : Option A)
    → ((w : World) → P w → F (port e) w)
    → Triple (λ w. P w × (f w ≡ o)) (found e o) (λ a w. P w × (f w ≡ some a)) F
found-Triple P f e none fallback = raise-Triple _ (λ w h. fallback w h.0)
found-Triple P f e (some a) fallback = pure-Triple a (λ w h. h)

-- An error that a port raised, in a world where the predicate holds.
abbrev pub FromPort : (World → Type 0) → ServiceError → World → Type 0
FromPort P (port e) w = P w
FromPort P _ w = ⊥

pub on_port-Triple :
    {A : Type 0} (P : World → Type 0) (Q : A → World → Type 0) (F : ServiceError → World → Type 0)
    (h : PortError → Action A)
    → ((e : PortError) → Triple P (h e) Q F)
    → (e : ServiceError) → Triple (FromPort P e) (on_port h e) Q F
on_port-Triple P Q F h handled (port e) = handled e
on_port-Triple P Q F h handled (ServiceError.policy e) = raise-Triple _ (λ w p. absurd p)
on_port-Triple P Q F h handled ServiceError.flag_not_found = raise-Triple _ (λ w p. absurd p)
on_port-Triple P Q F h handled ServiceError.invalid_record = raise-Triple _ (λ w p. absurd p)
on_port-Triple P Q F h handled (ServiceError.invalid_status_transition a b) =
    raise-Triple _ (λ w p. absurd p)

pub on_port-Keeps :
    {A : Type 0} (P : World → Type 0) (h : PortError → Action A)
    → ((e : PortError) → Keeps P (h e))
    → (e : ServiceError) → Keeps P (on_port h e)
on_port-Keeps P h handled (port e) = handled e
on_port-Keeps P h handled (ServiceError.policy e) = raise-Triple _ (λ w p. p)
on_port-Keeps P h handled ServiceError.flag_not_found = raise-Triple _ (λ w p. p)
on_port-Keeps P h handled ServiceError.invalid_record = raise-Triple _ (λ w p. p)
on_port-Keeps P h handled (ServiceError.invalid_status_transition a b) = raise-Triple _ (λ w p. p)

pub shielded-Keeps :
    {A : Type 0} (P : World → Type 0) (Q : World → Type 0) (m : Action A)
    → Triple Q m (λ _. P) (λ _. P)
    → Triple Q (shielded m) (λ _. P) (λ _. P)
unfolding shielded
shielded-Keeps P Q m t =
    attempt-Triple (λ _. P) (λ _. P) t (on_port-Keeps P _ (λ e. pure-Triple tt (λ w h. h)))
      (λ a. pure-Triple tt (λ w h. h))
