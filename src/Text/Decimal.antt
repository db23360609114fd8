-- ===== src/Text/Decimal.antt =====
-- `str(n)` and `int(digits)` of a number that is not negative.
pub mod RoundTrip
use grounded_ops_agent.Prelude.{
  ℕ, zero, suc, ◌+◌, ◌*◌, ◌/◌, ◌%◌, ◌≡◌, refl, none, some, [], ◌∷◌, ltb, if◌then◌else◌, Text,
}
use grounded_ops_agent.Text.Chars.{codes, digit_value}

-- The digits of `n` in front of `acc`; `n` itself is fuel enough.
unfoldable pub decimal_go : ℕ → ℕ → Text → Text
decimal_go zero n acc = (48 + n % 10) ∷ acc
decimal_go (suc f) n acc =
    let more = decimal_go f (n / 10) ((48 + n % 10) ∷ acc) in
    if ltb n 10 then (48 + n) ∷ acc else more

unfoldable pub decimal : ℕ → Text
unfolding decimal_go
decimal n = decimal_go n n []

-- `int` of a run of digits: `acc` is the value of the digits read.
unfoldable pub int_from : ℕ → Text → ℕ
int_from acc [] = acc
int_from acc (c ∷ s) = elim (digit_value c) [
  | none ↦ int_from acc s
  | some d ↦ int_from (acc * 10 + d) s
]

unfoldable pub int : Text → ℕ
unfolding int_from digit_value
int s = int_from 0 s

decimal_example : decimal 1205 ≡ codes "1205"
unfolding decimal
decimal_example = refl

int_example : int (codes "1205") ≡ 1205
unfolding int
int_example = refl
