-- ===== src/Agent/Citations/Cleaned.antt =====
-- The citations that are left in the cleaned text.
use grounded_ops_agent.Agent.Citations.{
  digits_close, cite_match, citations_from, citations, replace_from, collapse_spaces,
  validate_and_strip,
}
use grounded_ops_agent.Agent.Citations.Matching.{
  open_not_digit, cite_match-cong, cite_match-open, cite_match-split, cite_match-ne-nil, drop_past,
  citations-append,
}
use grounded_ops_agent.Agent.Citations.Spaces.{citations-collapse_spaces, citations-strip}
use grounded_ops_agent.Agent.Citations.Valid.{known_only}
use grounded_ops_agent.Agent.Registry.{CitationRegistry, has_index}
use grounded_ops_agent.Prelude.{
  ℕ, zero, suc, ◌+◌, ◌≡◌, refl, ap, ◌∙◌, inl, inr, Bool, true, false, ◌&&◌, ◌||◌, none, some, [],
  ◌∷◌, ◌++◌, arith, nat_beq, if◌then◌else◌, Bool-cases, Option-cases, length, drop, all, ◌==◌, Text,
  nat_eq, text_eq,
}
use grounded_ops_agent.Text.Chars.{is_digit}
use grounded_ops_agent.Text.Decimal.{int}

-- Digits, then an opening bracket: removing what follows could join the digits to what stands behind.
unfoldable pub digits_open : Text → Bool
digits_open [] = false
digits_open (d ∷ t) = if is_digit d then digits_open t else d == b'['

-- Some opening bracket is followed by digits and another opening bracket, as in `[1[2]`.
unfoldable pub has_nested : Text → Bool
has_nested [] = false
has_nested (c ∷ s) = (c == b'[' && digits_open s) || has_nested s

module _ (known : ℕ → Bool) where
  replace_none :
      (c : ℕ) (s : Text)
      → cite_match (c ∷ s) ≡ none
      → (replace_from known 0 (c ∷ s)).0 ≡ c ∷ (replace_from known 0 s).0
  unfolding replace_from
  replace_none c s h = rw (h, replace_from)

  replace_known :
      (c : ℕ) (s : Text) (ds : Text)
      → cite_match (c ∷ s) ≡ some ds
      → known (int ds) ≡ true
      → (replace_from known 0 (c ∷ s)).0
        ≡ b'[' ∷ ds ++ b']' ∷ (replace_from known (length ds + 1) s).0
  unfolding replace_from
  replace_known c s ds h k = rw (h, replace_from) (rw k)

  replace_unknown :
      (c : ℕ) (s : Text) (ds : Text)
      → cite_match (c ∷ s) ≡ some ds
      → known (int ds) ≡ false
      → (replace_from known 0 (c ∷ s)).0 ≡ (replace_from known (length ds + 1) s).0
  unfolding replace_from
  replace_unknown c s ds h k = rw (h, replace_from) (rw k)

  -- Digits behind a bracket are not touched, and neither is the character behind them.
  digits_close-replace :
      (s : Text) → digits_open s ≡ false → digits_close (replace_from known 0 s).0 ≡ digits_close s
  unfolding digits_open digits_close replace_from
  digits_close-replace [] h = refl
  digits_close-replace (d ∷ t) h = elim (Bool-cases (is_digit d)) [
    | inl digit ↦
        rw (replace_none d t (cite_match-open d t (ground (arith, open_not_digit))))
          (rw digit (rw (digits_close-replace t (ground arith))))
    | inr other ↦ rw (replace_none d t (cite_match-open d t (ground arith))) (rw other)
  ]

  citations-replace_none :
      (c : ℕ) (s : Text)
      → has_nested (c ∷ s) ≡ false
      → cite_match (c ∷ s) ≡ none
      → citations (replace_from known 0 s).0 ≡ known_only known (citations s)
      → citations (replace_from known 0 (c ∷ s)).0 ≡ known_only known (citations (c ∷ s))
  unfolding citations_from has_nested
  citations-replace_none c s h e ih =
      rw (replace_none c s e) (rw (still, citations_from) (rw (e, citations_from) ih))
    where
      still : cite_match (c ∷ (replace_from known 0 s).0) ≡ none
      still = elim (Bool-cases (nat_beq c b'[')) [
        | inl bracket ↦ cite_match-cong c _ s (digits_close-replace s (ground arith)) ∙ e
        | inr other ↦ cite_match-open c _ other
      ]

  citations-replace_some :
      (c : ℕ) (s ds : Text)
      → cite_match (c ∷ s) ≡ some ds
      → citations (replace_from known (length ds + 1) s).0
        ≡ known_only known (citations_from (length ds + 1) s)
      → citations (replace_from known 0 (c ∷ s)).0 ≡ known_only known (citations (c ∷ s))
  unfolding citations_from known_only
  citations-replace_some c s ds e ih =
      let (rest, _, eq, digits, _) = cite_match-split c s e in
      elim (Bool-cases (known (int ds))) [
        | inl yes_known ↦ rw (replace_known c s ds e yes_known) (
            rw (citations-append ds _ digits (cite_match-ne-nil c s e))
              (rw (e, citations_from) (rw yes_known (rw ih))))
        | inr unknown ↦
            rw (replace_unknown c s ds e unknown) (rw (e, citations_from) (rw unknown ih))
      ]

  -- The removals leave exactly the citations of known indices.
  pub citations-replace :
      (skip : ℕ) (s : Text)
      → has_nested s ≡ false
      → citations (replace_from known skip s).0 ≡ known_only known (citations_from skip s)
  unfolding replace_from citations_from known_only has_nested
  citations-replace skip [] h = elim skip [ zero ↦ refl | suc k ↦ refl ]
  citations-replace (suc skip) (c ∷ s) h = citations-replace skip s (ground arith)
  citations-replace zero (c ∷ s) h = elim (Option-cases (cite_match (c ∷ s))) [
    | inl e ↦ citations-replace_none c s h e (citations-replace 0 s (ground arith))
    | inr (ds, e) ↦
        citations-replace_some c s ds e (citations-replace (length ds + 1) s (ground arith))
  ]

-- If every index that the text cites is known, nothing is removed.
pub replace_id :
    (known : ℕ → Bool) (skip : ℕ) (s : Text)
    → all known (citations_from skip s) ≡ true
    → (replace_from known skip s).0 ≡ drop skip s
unfolding replace_from citations_from
replace_id known zero [] h = refl
replace_id known (suc skip) [] h = refl
replace_id known (suc skip) (c ∷ s) h = replace_id known skip s h
replace_id known zero (c ∷ s) h = elim (Option-cases (cite_match (c ∷ s))) [
  | inl e ↦
      rw (replace_none known c s e) (ap (λ r. c ∷ r) (replace_id known 0 s (ground (arith, e))))
  | inr (ds, e) ↦
      let (rest, bracket, eq, digits, _) = cite_match-split c s e in
      rw (replace_known known c s ds e (ground (arith, e))) (
        rw (replace_id known (length ds + 1) s (ground (arith, e)))
          (cc (bracket, eq, ap (drop (length ds + 1)) eq, drop_past ds rest)))
]

-- If no citation of the answer is nested in the start of another, the cleaned text cites exactly
-- those indices of the answer that the registry has, in the order of the answer.
pub citations-validate_and_strip :
    (answer : Text) (r : CitationRegistry)
    → has_nested answer ≡ false
    → citations (validate_and_strip answer r).0 ≡ known_only (has_index r) (citations answer)
unfolding validate_and_strip
citations-validate_and_strip answer r h =
    citations-strip (collapse_spaces (replace_from (has_index r) 0 answer).0)
    ∙ citations-collapse_spaces (replace_from (has_index r) 0 answer).0
    ∙ citations-replace (has_index r) 0 answer h
