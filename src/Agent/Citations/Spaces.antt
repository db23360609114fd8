-- ===== src/Agent/Citations/Spaces.antt =====
-- Collapsing spaces and stripping the ends keep the citations.
use native.Mathlib.Numerals.{add-one}
use grounded_ops_agent.Agent.Citations.{
  digits_close, cite_match, citations_from, citations, starts_with_space, collapse_spaces,
}
use grounded_ops_agent.Agent.Citations.Matching.{
  space_not_open, space_not_close, cite_match-cong, cite_match-open, Digits, cite_match-split,
}
use grounded_ops_agent.Prelude.{
  ℕ, zero, suc, ◌+◌, ◌≡◌, refl, sym, ap, ◌∙◌, ◌⊎◌, inl, inr, Bool, true, false, ◌&&◌, none, some,
  [], ◌∷◌, ◌++◌, arith, Bool-cases, Option-cases, length, ◌==◌, nat_eq, Text, text_eq,
}
use grounded_ops_agent.Text.Chars.{is_space, digit_not_space}
use grounded_ops_agent.Text.Decimal.{int}
use grounded_ops_agent.Text.Words.{lstrip, strip_cons, rstrip, strip}

-- None of the first `k` characters is white space.
abbrev Solid : ℕ → Text → Type 0
Solid zero s = Unit
Solid (suc k) [] = Unit
Solid (suc k) (c ∷ s) = (is_space c ≡ false) × Solid k s

Solid-append : (ds t : Text) → Digits ds → Solid (length ds + 1) (ds ++ b']' ∷ t)
Solid-append ds t h = rw add-one (go ds t h)
  where
    go : (ds t : Text) → Digits ds → Solid (suc (length ds)) (ds ++ b']' ∷ t)
    go [] t h = (space_not_close, tt)
    go (d ∷ ds) t h = (digit_not_space d h.0, go ds t h.1)

-- A match is solid up to its closing bracket.
Solid-cite_match :
    (c : ℕ) (s : Text) {ds : Text} → cite_match (c ∷ s) ≡ some ds → Solid (length ds + 1) s
Solid-cite_match c s {ds} h =
    let (rest, _, eq, digits, _) = cite_match-split c s h in rw eq (Solid-append ds rest digits)

space_not_match : (c : ℕ) (s : Text) → is_space c ≡ true → cite_match (c ∷ s) ≡ none
space_not_match c s h = cite_match-open c s (ground (arith, space_not_open))

blank_not_space : is_space b' ' ≡ true
unfolding is_space
blank_not_space = refl

digits_close_space : (c : ℕ) (t : Text) → is_space c ≡ true → digits_close (c ∷ t) ≡ none
unfolding digits_close
digits_close_space c t h = ground (arith, digit_not_space c, space_not_close)

collapse_drop :
    (d : ℕ) (t : Text)
    → (d == b' ' && starts_with_space t) ≡ true
    → collapse_spaces (d ∷ t) ≡ collapse_spaces t
unfolding collapse_spaces
collapse_drop d t h = rw (h, collapse_spaces)

collapse_keep :
    (d : ℕ) (t : Text)
    → (d == b' ' && starts_with_space t) ≡ false
    → collapse_spaces (d ∷ t) ≡ d ∷ collapse_spaces t
unfolding collapse_spaces
collapse_keep d t h = rw (h, collapse_spaces)

is_space_blank : (d : ℕ) (b : Bool) → (d == b' ' && b) ≡ true → is_space d ≡ true
is_space_blank d b h = ground (arith, blank_not_space)

digits_close_blank : (t : Text) → starts_with_space t ≡ true → digits_close t ≡ none
digits_close_blank [] h = ground arith
digits_close_blank (c ∷ t) h = digits_close_space c t (ground (arith, blank_not_space))

digits_close_cons :
    (d : ℕ) (s t : Text)
    → digits_close s ≡ digits_close t
    → digits_close (d ∷ s) ≡ digits_close (d ∷ t)
unfolding digits_close
digits_close_cons d s t h = rw h

digits_close-collapse : (s : Text) → digits_close (collapse_spaces s) ≡ digits_close s
unfolding collapse_spaces
digits_close-collapse [] = refl
digits_close-collapse (d ∷ t) = elim (Bool-cases (d == b' ' && starts_with_space t)) [
  | inl gone ↦ rw (collapse_drop d t gone) (
      digits_close-collapse t
      ∙ digits_close_blank t (ground arith)
      ∙ sym (digits_close_space d t (is_space_blank d (starts_with_space t) gone)))
  | inr kept ↦ rw (collapse_keep d t kept) (digits_close_cons d _ t (digits_close-collapse t))
]

-- One character read at the head of two texts with the same matches.
citations_cons :
    (c : ℕ) (s t : Text)
    → digits_close s ≡ digits_close t
    → ((k : ℕ) → Solid k t → citations_from k s ≡ citations_from k t)
    → citations (c ∷ s) ≡ citations (c ∷ t)
unfolding citations_from
citations_cons c s t h ih = elim (Option-cases (cite_match (c ∷ t))) [
  | inl e ↦ rw (cite_match-cong c s t h ∙ e, citations_from) (rw (e, citations_from) (ih 0 tt))
  | inr (ds, e) ↦
      rw (cite_match-cong c s t h ∙ e, citations_from)
        (rw (e, citations_from)
          (ap (λ r. int ds ∷ r) (ih (length ds + 1) (Solid-cite_match c t e))))
]

citations_space : (c : ℕ) (s : Text) → is_space c ≡ true → citations (c ∷ s) ≡ citations s
unfolding citations_from
citations_space c s h = rw (space_not_match c s h, citations_from)

citations-collapse_from :
    (k : ℕ) (s : Text) → Solid k s → citations_from k (collapse_spaces s) ≡ citations_from k s
unfolding collapse_spaces citations_from
citations-collapse_from k [] h = refl
citations-collapse_from (suc k) (c ∷ s) h =
    rw (collapse_keep c s (ground (arith, is_space_blank c (starts_with_space s))))
      (citations-collapse_from k s h.1)
citations-collapse_from zero (c ∷ s) h = elim (Bool-cases (c == b' ' && starts_with_space s)) [
  | inl gone ↦ rw (collapse_drop c s gone) (
      citations-collapse_from 0 s tt
      ∙ sym (citations_space c s (is_space_blank c (starts_with_space s) gone)))
  | inr kept ↦ rw (collapse_keep c s kept) (
      citations_cons c (collapse_spaces s) s (digits_close-collapse s)
        (λ k. citations-collapse_from k s))
]

pub citations-collapse_spaces : (s : Text) → citations (collapse_spaces s) ≡ citations s
citations-collapse_spaces s = citations-collapse_from 0 s tt

pub citations-lstrip : (s : Text) → citations (lstrip s) ≡ citations s
unfolding lstrip
citations-lstrip [] = refl
citations-lstrip (c ∷ s) = elim (Bool-cases (is_space c)) [
  | inl blank ↦ rw blank (citations-lstrip s ∙ sym (citations_space c s blank))
  | inr kept ↦ rw kept refl
]

-- A character in front of a stripped text is kept, or it is white space at the end.
strip_cons_cases :
    (c : ℕ) (s : Text)
    → (strip_cons c s ≡ c ∷ s) ⊎ ((is_space c ≡ true) × (s ≡ []) × (strip_cons c s ≡ []))
unfolding strip_cons
strip_cons_cases c [] = ground arith
strip_cons_cases c (d ∷ s) = inl refl

digits_close_nil : digits_close [] ≡ none
unfolding digits_close
digits_close_nil = refl

digits_close-rstrip : (s : Text) → digits_close (rstrip s) ≡ digits_close s
unfolding rstrip
digits_close-rstrip [] = refl
digits_close-rstrip (c ∷ s) = elim (strip_cons_cases c (rstrip s)) [
  | inl kept ↦ rw kept (digits_close_cons c (rstrip s) s (digits_close-rstrip s))
  | inr (blank, _, gone) ↦ rw gone (digits_close_nil ∙ sym (digits_close_space c s blank))
]

citations-rstrip_from :
    (k : ℕ) (s : Text) → Solid k s → citations_from k (rstrip s) ≡ citations_from k s
unfolding rstrip citations_from
citations-rstrip_from k [] h = refl
citations-rstrip_from (suc k) (c ∷ s) h = elim (strip_cons_cases c (rstrip s)) [
  | inl kept ↦ rw kept (citations-rstrip_from k s h.1)
  | inr (blank, _, gone) ↦ cc h.0
]
citations-rstrip_from zero (c ∷ s) h = elim (strip_cons_cases c (rstrip s)) [
  | inl kept ↦
      rw kept
        (citations_cons c (rstrip s) s (digits_close-rstrip s) (λ k. citations-rstrip_from k s))
  | inr (blank, none_left, gone) ↦ rw gone (
      ap citations (sym none_left) ∙ citations-rstrip_from 0 s tt ∙ sym (citations_space c s blank))
]

pub citations-strip : (s : Text) → citations (strip s) ≡ citations s
unfolding strip
citations-strip s = citations-rstrip_from 0 (lstrip s) tt ∙ citations-lstrip s
