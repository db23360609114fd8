-- ===== src/Core/Effects.antt =====
-- Code that reads and writes a state and may raise: what was written before a raise stays.
use grounded_ops_agent.Core.Errors.{Result, ok, raise}
use grounded_ops_agent.Prelude.{◌≡◌, refl, ap}

abbrev pub Code : Type 0 → Type 0 → Type 0
Code S A = S → Result A × S

module _ {S A : Type 0} where
  abbrev pub returns : A → Code S A
  returns a s = (ok a, s)

  -- A computation that may raise and does not touch the state.
  abbrev pub attempted : Result A → Code S A
  attempted r s = (r, s)

  abbrev pub reads : (S → A) → Code S A
  reads f s = (ok (f s), s)

module _ {S : Type 0} where
  abbrev pub writes : (S → S) → Code S Unit
  writes f s = (ok tt, f s)

module _ {S A B : Type 0} where
  abbrev pub go_on : Result A → (A → Code S B) → Code S B
  go_on (ok a) f s = f a s
  go_on (raise e) f s = (raise e, s)

  infixl 5 ◌>>=◌ ◌>>◌
  abbrev pub ◌>>=◌ : Code S A → (A → Code S B) → Code S B
  ◌>>=◌ m f s = let (r, s') = m s in go_on r f s'

  abbrev pub ◌>>◌ : Code S A → Code S B → Code S B
  m >> n = m >>= λ _. n

  go_on-eq-ok :
      (r : Result A × S) (f : A → Code S B) {b : B} {s' : S}
      → go_on r.0 f r.1 ≡ (ok b, s')
      → (a : A) × (r.0 ≡ ok a) × (f a r.1 ≡ (ok b, s'))
  go_on-eq-ok (ok a, s) f h = (a, refl, h)
  go_on-eq-ok (raise e, s) f h = cc h

  -- Code that returned returned at each of its steps.
  pub Code-eq-ok :
      (m : Code S A) (f : A → Code S B) (s : S) {b : B} {s' : S}
      → (m >>= f) s ≡ (ok b, s')
      → (a : A) × ((m s).0 ≡ ok a) × (f a (m s).1 ≡ (ok b, s'))
  Code-eq-ok m f s h = go_on-eq-ok (m s) f h

  pub attempted-ok :
      (r : Result A) (f : A → Code S B) (s : S) {a : A} → r ≡ ok a → (attempted r >>= f) s ≡ f a s
  attempted-ok r f s {a} e = ap (λ q. (attempted q >>= f) s) e

  pub bind-ok :
      (m : Code S A) (f : A → Code S B) (s : S) {a : A} {s' : S}
      → m s ≡ (ok a, s')
      → (m >>= f) s ≡ f a s'
  bind-ok m f s e = ap (λ (r : Result A × S). go_on r.0 f r.1) e

  state-go_on : (r : Result A × S) (f : A → B) → (go_on r.0 (λ a. returns (f a)) r.1).1 ≡ r.1
  state-go_on (ok a, s) f = refl
  state-go_on (raise e, s) f = refl

  -- Code that only computes its result from another's changes the state as that one.
  pub state-mapped : (m : Code S A) (f : A → B) (s : S) → ((m >>= λ a. returns (f a)) s).1 ≡ (m s).1
  state-mapped m f s = state-go_on (m s) f

  pub state-returns : (m : Code S A) (b : B) (s : S) → ((m >>= λ a. returns b) s).1 ≡ (m s).1
  state-returns m b s = state-mapped m (λ a. b) s
