-- ===== src/Agent/Citations/Matching.antt =====
-- What a match of the citation pattern looks like, and when an edit of the text keeps it.
use native.Mathlib.Numerals.{add-one}
use grounded_ops_agent.Agent.Citations.{digits_close, cite_match, citations_from, citations}
use grounded_ops_agent.Prelude.{
  ℕ, zero, suc, ◌+◌, ◌≡◌, refl, ap, ◌∙◌, ◌≢◌, inl, inr, true, false, none, some, [], ◌∷◌, ◌++◌,
  arith, nat_beq, Bool-cases, Option-cases, length, drop, all, All, Text,
}
use grounded_ops_agent.Text.Chars.{is_space, is_digit}
use grounded_ops_agent.Text.Decimal.{int}

pub open_not_digit : is_digit b'[' ≡ false
unfolding is_digit
open_not_digit = refl

pub close_not_digit : is_digit b']' ≡ false
unfolding is_digit
close_not_digit = refl

-- No character is both a space and a digit, or a space and a bracket.
pub space_not_open : is_space b'[' ≡ false
unfolding is_space
space_not_open = refl

pub space_not_close : is_space b']' ≡ false
unfolding is_space
space_not_close = refl

-- A text that reads the same up to the first character that is no digit has the same match.
pub cite_match-cong :
    (c : ℕ) (s t : Text) → digits_close s ≡ digits_close t → cite_match (c ∷ s) ≡ cite_match (c ∷ t)
unfolding cite_match
cite_match-cong c s t h = rw h

pub cite_match-open : (c : ℕ) (s : Text) → nat_beq c b'[' ≡ false → cite_match (c ∷ s) ≡ none
unfolding cite_match
cite_match-open c s h = rw h

-- The first `k` characters exist and are digits.
abbrev pub Digits : Text → Type 0
Digits ds = All (λ d. is_digit d ≡ true) ds

pub digits_close_split :
    (s : Text) {ds : Text}
    → digits_close s ≡ some ds
    → (rest : Text) × (s ≡ ds ++ b']' ∷ rest) × Digits ds
unfolding digits_close
digits_close_split [] h = cc
digits_close_split (d ∷ t) {ds} h = elim (Bool-cases (is_digit d)) [
  | inr other ↦ let e = rw other at h in (t, ground arith, ground arith)
  | inl digit ↦ elim (Option-cases (digits_close t)) [
    | inl e ↦ let e' = rw (digit, e) at h in cc
    | inr (es, e) ↦
        let (rest, eq, all) = digits_close_split t {ds = es} e in
        let same : some (d ∷ es) ≡ some ds = rw (digit, e) at h in
        let same' : d ∷ es ≡ ds = cc in
        (rest, rw (← same') (ap (λ (x : Text). d ∷ x) eq), rw (← same') (digit, all))
  ]
]

pub digits_close-append : (ds t : Text) → Digits ds → digits_close (ds ++ b']' ∷ t) ≡ some ds
unfolding digits_close
digits_close-append [] t h = rw close_not_digit
digits_close-append (d ∷ ds) t h = rw (h.0, digits_close-append ds t h.1)

pub cite_match-split :
    (c : ℕ) (s : Text) {ds : Text}
    → cite_match (c ∷ s) ≡ some ds
    → (rest : Text) × (c ≡ b'[') × (s ≡ ds ++ b']' ∷ rest) × Digits ds × (digits_close s ≡ some ds)
unfolding cite_match
cite_match-split c s {ds} h = elim (Bool-cases (nat_beq c b'[')) [
  | inr other ↦ let e = rw other at h in cc
  | inl bracket ↦ elim (Option-cases (digits_close s)) [
    | inl e ↦ let e' = rw (bracket, e) at h in cc
    | inr (es, e) ↦
        let same : es ≡ ds = ground (arith, e) in
        let (rest, eq, all) = digits_close_split s {ds = es} e in
        (rest, ground arith, rw (← same) eq, rw (← same) all, e ∙ ap some same)
  ]
]

pub cite_match-ne-nil : (c : ℕ) (s : Text) {ds : Text} → cite_match (c ∷ s) ≡ some ds → ds ≢ []
unfolding cite_match
cite_match-ne-nil c s {ds = []} h = ground arith
cite_match-ne-nil c s {ds = d ∷ ds} h = cc

-- A bracketed run of digits is a match, whatever stands behind it.
pub cite_match-append :
    (ds t : Text) → Digits ds → ds ≢ [] → cite_match (b'[' ∷ ds ++ b']' ∷ t) ≡ some ds
unfolding cite_match
cite_match-append [] t h some_digit = absurd (some_digit refl)
cite_match-append (d ∷ ds) t h some_digit = rw (digits_close-append (d ∷ ds) t h)

pub citations_from-drop : (k : ℕ) (s : Text) → citations_from k s ≡ citations_from 0 (drop k s)
unfolding citations_from
citations_from-drop zero s = refl
citations_from-drop (suc k) [] = refl
citations_from-drop (suc k) (c ∷ s) = citations_from-drop k s

pub drop_past : (ds t : Text) → drop (length ds + 1) (ds ++ b']' ∷ t) ≡ t
drop_past [] t = refl
drop_past (d ∷ ds) t = rw add-one (rw add-one at (drop_past ds t))

pub citations_from-length :
    (ds t : Text) → citations_from (length ds + 1) (ds ++ b']' ∷ t) ≡ citations_from 0 t
citations_from-length ds t =
    citations_from-drop (length ds + 1) (ds ++ b']' ∷ t) ∙ ap (citations_from 0) (drop_past ds t)

-- The first citation of a text that starts with one.
pub citations-append :
    (ds t : Text) → Digits ds → ds ≢ [] → citations (b'[' ∷ ds ++ b']' ∷ t) ≡ int ds ∷ citations t
unfolding citations_from
citations-append ds t h some_digit =
    rw (cite_match-append ds t h some_digit, citations_from)
      (ap (λ r. int ds ∷ r) (citations_from-length ds t))
