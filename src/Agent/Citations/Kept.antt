-- ===== src/Agent/Citations/Kept.antt =====
-- The text of an answer that cites only known indices.
use grounded_ops_agent.Agent.Citations.{
  citations, starts_with_space, collapse_spaces, validate_and_strip,
}
use grounded_ops_agent.Agent.Citations.Cleaned.{replace_id}
use grounded_ops_agent.Agent.Registry.{CitationRegistry, has_index}
use grounded_ops_agent.Prelude.{
  ℕ, ◌≡◌, refl, sym, ap, ◌∙◌, subst, inl, inr, true, not, ◌&&◌, [], ◌∷◌, arith, Bool-cases, all,
  keep_if, ◌==◌, Text, nat_eq, text_eq, contains,
}
use grounded_ops_agent.Text.Chars.{spaces, is_space}
use grounded_ops_agent.Text.Words.{lstrip, strip_cons, rstrip, strip}

-- The characters of a text that are not white space.
abbrev pub visible : Text → Text
visible s = keep_if (λ c. not (is_space c)) s

blank : (c : ℕ) → (c == b' ') ≡ true → is_space c ≡ true
unfolding is_space
blank c h = subst (λ d. contains spaces d ≡ true) (sym ((nat_eq.beq_iff c b' ').0 h)) refl

visible_blank : (c : ℕ) (s : Text) → is_space c ≡ true → visible (c ∷ s) ≡ visible s
visible_blank c s h = rw (h, keep_if) refl

visible-collapse_spaces : (s : Text) → visible (collapse_spaces s) ≡ visible s
unfolding collapse_spaces
visible-collapse_spaces [] = refl
visible-collapse_spaces (c ∷ s) =
    let rest = visible-collapse_spaces s in
    elim (Bool-cases (c == b' ' && starts_with_space s)) [
      | inl e ↦ rw (e, collapse_spaces) (rest ∙ sym (visible_blank c s (blank c (ground arith))))
      | inr e ↦ rw (e, collapse_spaces) (ground (arith, rest))
    ]

visible-lstrip : (s : Text) → visible (lstrip s) ≡ visible s
unfolding lstrip
visible-lstrip [] = refl
visible-lstrip (c ∷ s) = elim (Bool-cases (is_space c)) [
  | inl e ↦ rw (e, lstrip) (visible-lstrip s ∙ sym (visible_blank c s e))
  | inr e ↦ rw (e, lstrip) refl
]

visible-strip_cons : (c : ℕ) (s : Text) → visible (strip_cons c s) ≡ visible (c ∷ s)
unfolding strip_cons
visible-strip_cons c [] = elim (Bool-cases (is_space c)) [
  | inl e ↦ rw (e, strip_cons) (sym (visible_blank c [] e))
  | inr e ↦ rw (e, strip_cons) refl
]
visible-strip_cons c (d ∷ s) = refl

visible-rstrip : (s : Text) → visible (rstrip s) ≡ visible s
unfolding rstrip
visible-rstrip [] = refl
visible-rstrip (c ∷ s) = visible-strip_cons c (rstrip s) ∙ ground (arith, visible-rstrip s)

visible-strip : (s : Text) → visible (strip s) ≡ visible s
unfolding strip
visible-strip s = visible-rstrip (lstrip s) ∙ visible-lstrip s

-- An answer that cites only known indices is changed in its white space alone: spaces in a row are
-- collapsed and the ends are stripped, and every other character is kept, in order.
pub validate_and_strip_known :
    (answer : Text) (r : CitationRegistry)
    → all (has_index r) (citations answer) ≡ true
    → (visible (validate_and_strip answer r).0 ≡ visible answer)
      × ((validate_and_strip answer r).0 ≡ strip (collapse_spaces answer))
unfolding validate_and_strip
validate_and_strip_known answer r h =
    let same : (validate_and_strip answer r).0 ≡ strip (collapse_spaces answer) =
      ap (λ s. strip (collapse_spaces s)) (replace_id (has_index r) 0 answer h) in
    (
      ap visible same ∙ visible-strip (collapse_spaces answer) ∙ visible-collapse_spaces answer,
      same,
    )
