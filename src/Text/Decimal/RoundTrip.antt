-- ===== src/Text/Decimal/RoundTrip.antt =====
-- The digits that are printed are read back.
use grounded_ops_agent.Prelude.{
  ℕ, zero, suc, ◌+◌, ◌*◌, ◌/◌, ◌%◌, ◌≤◌, ◌≡◌, refl, ap, ◌∙◌, inl, inr, true, [], ◌∷◌, arith, ltb,
  Bool-cases, All, Text,
}
use grounded_ops_agent.Text.Chars.{is_digit, digit_value_ascii}
use grounded_ops_agent.Text.Decimal.{decimal_go, decimal, int_from, int}

abbrev pub IsDigits : Text → Type 0
IsDigits ds = All (λ d. is_digit d ≡ true) ds

digit_code : (d : ℕ) → d ≤ 9 → is_digit (48 + d) ≡ true
unfolding is_digit
digit_code d h = rw (digit_value_ascii d (ground arith), is_digit) refl

decimal_go-IsDigits : (f n : ℕ) (acc : Text) → IsDigits acc → IsDigits (decimal_go f n acc)
unfolding decimal_go
decimal_go-IsDigits zero n acc h = (digit_code (n % 10) (omega arith), h)
decimal_go-IsDigits (suc f) n acc h = elim (Bool-cases (ltb n 10)) [
  | inl small ↦ rw (small, decimal_go) (digit_code n (ground arith), h)
  | inr large ↦
      rw (large, decimal_go)
        (decimal_go-IsDigits f (n / 10) ((48 + n % 10) ∷ acc)
          (digit_code (n % 10) (omega arith), h))
]

pub decimal-IsDigits : (n : ℕ) → IsDigits (decimal n)
unfolding decimal
decimal-IsDigits n = decimal_go-IsDigits n n [] tt

decimal_go-cons : (f n : ℕ) (acc : Text) → (d : ℕ) × (ds : Text) × (decimal_go f n acc ≡ d ∷ ds)
unfolding decimal_go
decimal_go-cons zero n acc = (48 + n % 10, acc, refl)
decimal_go-cons (suc f) n acc = elim (Bool-cases (ltb n 10)) [
  | inl small ↦ (48 + n, acc, rw (small, decimal_go) refl)
  | inr large ↦
      let (d, ds, e) = decimal_go-cons f (n / 10) ((48 + n % 10) ∷ acc) in
      (d, ds, rw (large, decimal_go) e)
]

-- A number has a digit.
pub decimal-cons : (n : ℕ) → (d : ℕ) × (ds : Text) × (decimal n ≡ d ∷ ds)
unfolding decimal
decimal-cons n = decimal_go-cons n n []

int_from-digit : (a d : ℕ) (s : Text) → d ≤ 9 → int_from a ((48 + d) ∷ s) ≡ int_from (a * 10 + d) s
unfolding int_from
int_from-digit a d s h = rw (digit_value_ascii d (ground arith), int_from) refl

int_from-decimal_go :
    (f n : ℕ) (acc : Text) → n ≤ f → int_from 0 (decimal_go f n acc) ≡ int_from n acc
unfolding decimal_go
int_from-decimal_go zero n acc h =
    int_from-digit 0 (n % 10) acc (omega arith) ∙ ap (λ k. int_from k acc) (omega arith)
int_from-decimal_go (suc f) n acc h = elim (Bool-cases (ltb n 10)) [
  | inl small ↦
      rw (small, decimal_go)
        (int_from-digit 0 n acc (ground arith) ∙ ap (λ k. int_from k acc) (omega arith))
  | inr large ↦
      rw (large, decimal_go)
        (int_from-decimal_go f (n / 10) ((48 + n % 10) ∷ acc) (ground arith)
          ∙ int_from-digit (n / 10) (n % 10) acc (omega arith)
          ∙ ap (λ k. int_from k acc) (omega arith))
]

-- `int(str(n)) == n`
pub int-decimal : (n : ℕ) → int (decimal n) ≡ n
unfolding int decimal int_from
int-decimal n = int_from-decimal_go n n [] (omega arith)
