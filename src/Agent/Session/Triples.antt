-- ===== src/Agent/Session/Triples.antt =====
-- Pre- and postconditions of actions, one rule for each way to build an action. The last condition
-- is what holds when the action raises.
use grounded_ops_agent.Agent.Session.{◌>>=◌}
use grounded_ops_agent.Agent.Events.{AgentEvent}
use grounded_ops_agent.Agent.Session.{
  Session, Action, pure, lift, call, gets, modify, emit, continue,
}
use grounded_ops_agent.Core.Errors.{Error, Result, ok, raise}
use grounded_ops_agent.Prelude.{◌≡◌, refl, [], ◌∷◌, ◌++◌}

module _ {W A : Type 0} where
  abbrev pub Post : (A → Session W → Type 0) → (Session W → Type 0) → Result A × Session W → Type 0
  Post Q E (ok a, s) = Q a s
  Post Q E (raise e, s) = E s

  pub record Triple (P : Session W → Type 0) (m : Action W A) (Q : A → Session W → Type 0)
      (E : Session W → Type 0) : Type 0 where
    pub at : (s : Session W) → P s → Post Q E (m s)

  -- `m` keeps `P`, whether it returns or raises.
  abbrev pub Keeps : (Session W → Type 0) → Action W A → Type 0
  Keeps P m = Triple P m (λ _. P) P

module _ {W A : Type 0} {P : Session W → Type 0} {Q : A → Session W → Type 0}
    {E : Session W → Type 0} where
  pub Triple-pure : (a : A) → ((s : Session W) → P s → Q a s) → Triple P (pure a) Q E
  unfolding pure
  Triple-pure a h = record { at = h }

  pub Triple-lift :
      (r : Result A)
      → ((a : A) (s : Session W) → r ≡ ok a → P s → Q a s)
      → ((e : Error) (s : Session W) → r ≡ raise e → P s → E s)
      → Triple P (lift r) Q E
  unfolding lift
  Triple-lift (ok a) h e = record { at = λ s p. h a s refl p }
  Triple-lift (raise x) h e = record { at = λ s p. e x s refl p }

  pub Triple-gets :
      (f : Session W → A) → ((s : Session W) → P s → Q (f s) s) → Triple P (gets f) Q E
  unfolding gets
  Triple-gets f h = record { at = h }

  -- A call changes the world alone.
  pub Triple-call :
      (f : W → Result A × W)
      → ((s : Session W) → P s → Post Q E ((f s.world).0, record s { world = (f s.world).1 }))
      → Triple P (call f) Q E
  unfolding call
  Triple-call f h = record { at = h }

module _ {W : Type 0} {P : Session W → Type 0} {Q E : Session W → Type 0} where
  pub Triple-modify :
      (f : Session W → Session W)
      → ((s : Session W) → P s → Q (f s))
      → Triple P (modify f) (λ _. Q) E
  unfolding modify
  Triple-modify f h = record { at = h }

  pub Triple-emit :
      (event : AgentEvent)
      → ((s : Session W) → P s → Q (record s { emitted = s.emitted ++ event ∷ [] }))
      → Triple P (emit event) (λ _. Q) E
  unfolding emit
  Triple-emit event h = record { at = h }

module _ {W A B : Type 0} {Q : A → Session W → Type 0} {R : B → Session W → Type 0}
    {E : Session W → Type 0} where
  continue-Post :
      (r : Result A) (f : A → Action W B) (s : Session W)
      → Post Q E (r, s)
      → ((a : A) → Triple (Q a) (f a) R E)
      → Post R E (continue r f s)
  continue-Post (ok a) f s q h = (h a).at s q
  continue-Post (raise e) f s q h = q

module _ {W A B : Type 0} {P : Session W → Type 0} {Q : A → Session W → Type 0}
    {R : B → Session W → Type 0} {E : Session W → Type 0} where
  pub Triple-bind :
      (m : Action W A) (f : A → Action W B)
      → Triple P m Q E
      → ((a : A) → Triple (Q a) (f a) R E)
      → Triple P (m >>= f) R E
  unfolding ◌>>=◌
  Triple-bind m f hm hf = record {
    at = λ s p. let (r, s') = m s in continue-Post r f s' (hm.at s p) hf;
  }

module _ {W A : Type 0} where
  Post-map :
      (x : Result A × Session W) {Q Q' : A → Session W → Type 0} {E E' : Session W → Type 0}
      → ((a : A) (s : Session W) → Q a s → Q' a s)
      → ((s : Session W) → E s → E' s)
      → Post Q E x
      → Post Q' E' x
  Post-map (ok a, s) q e h = q a s h
  Post-map (raise x, s) q e h = e s h

  pub Triple-weaken :
      {P P' : Session W → Type 0} {m : Action W A} {Q Q' : A → Session W → Type 0}
      {E E' : Session W → Type 0}
      → Triple P m Q E
      → ((s : Session W) → P' s → P s)
      → ((a : A) (s : Session W) → Q a s → Q' a s)
      → ((s : Session W) → E s → E' s)
      → Triple P' m Q' E'
  Triple-weaken {m = m} t p q e = record { at = λ s h. Post-map (m s) q e (t.at s (p s h)) }
