-- ===== src/Core/Errors.antt =====
-- src/app/core/errors.py, with the built-in exceptions that the modelled code can raise, and the
-- results of code that may raise.
use grounded_ops_agent.Prelude.{◌≡◌, refl, ◌⊎◌, inl, inr, Option, none, some, List, [], ◌∷◌, Text}
use grounded_ops_agent.Text.Chars.{codes}

pub data Error : Type 0 where
  app_error config_error validation_error not_found retrieval_error : Text → Error
  embedding_mismatch provider_error tool_error guardrail_error : Text → Error
  key_error value_error type_error assertion_error : Error
  -- raised by code outside the repository
  external : Text → Error

-- `exc.code` of an `AppError`; `none` of any other exception.
unfoldable pub code : Error → Option Text
code (app_error m) = some (codes "app_error")
code (config_error m) = some (codes "config_error")
code (validation_error m) = some (codes "validation_error")
code (not_found m) = some (codes "not_found")
code (retrieval_error m) = some (codes "retrieval_error")
code (embedding_mismatch m) = some (codes "embedding_mismatch")
code (provider_error m) = some (codes "provider_error")
code (tool_error m) = some (codes "tool_error")
code (guardrail_error m) = some (codes "guardrail_error")
code _ = none

pub data Result {ℓ} (A : Type ℓ) : Type ℓ where
  ok : A → Result A
  raise : Error → Result A

infixl 5 ◌>>=◌ ◌>>◌
abbrev pub ◌>>=◌ {ℓ κ} : {A : Type ℓ} {B : Type κ} → Result A → (A → Result B) → Result B
ok a >>= f = f a
raise e >>= f = raise e

abbrev pub ◌>>◌ {ℓ κ} : {A : Type ℓ} {B : Type κ} → Result A → Result B → Result B
m >> k = m >>= λ _. k

-- The same, for code that also binds computations of another kind.
abbrev pub and_then {ℓ κ} : {A : Type ℓ} {B : Type κ} → Result A → (A → Result B) → Result B
and_then r f = r >>= f

pub >>=-eq-ok {ℓ κ} :
    {A : Type ℓ} {B : Type κ} (r : Result A) (next : A → Result B) {out : B}
    → (r >>= next) ≡ ok out
    → (x : A) × (r ≡ ok x) × (next x ≡ ok out)
>>=-eq-ok (ok x) next returned = (x, refl, returned)
>>=-eq-ok (raise e) next returned = cc

-- A list of calls that may raise, made in order.
abbrev pub traverse {ℓ κ} : {A : Type ℓ} {B : Type κ} → (A → Result B) → List A → Result (List B)
traverse f [] = ok []
traverse f (x ∷ xs) = do y ← f x; ys ← traverse f xs; ok (y ∷ ys)

pub >>=-ok {ℓ} : {A : Type ℓ} (r : Result A) → (r >>= λ a. ok a) ≡ r
>>=-ok (ok a) = refl
>>=-ok (raise e) = refl

pub Result-cases {ℓ} :
    {A : Type ℓ} (r : Result A) → ((a : A) × (r ≡ ok a)) ⊎ ((e : Error) × (r ≡ raise e))
Result-cases (ok a) = inl (a, refl)
Result-cases (raise e) = inr (e, refl)
