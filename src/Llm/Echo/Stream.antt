-- ===== src/Llm/Echo/Stream.antt =====
-- The streamed answer against the one that `complete` gives.
use grounded_ops_agent.Llm.Echo.{echo_answer, echo_complete, split_char, split_blanks, echo_stream}
use grounded_ops_agent.Llm.Types.{LlmMessage}
use grounded_ops_agent.Prelude.{
  ℕ, ◌≡◌, refl, sym, ap, ◌∙◌, ◌≢◌, inl, inr, Option, List, [], ◌∷◌, ◌++◌, map, arith, Bool-cases,
  length, concat, ◌==◌, Text, nat_eq, text_eq,
}
use grounded_ops_agent.Text.Chars.{codes}

abbrev spaced : List Text → Text
spaced ws = concat (map (λ (w : Text). w ++ codes " ") ws)

spaced-split_char :
    (c : ℕ) (ws : List Text) → length ws ≢ 0 → spaced (split_char c ws) ≡ c ∷ spaced ws
unfolding split_char
spaced-split_char c [] h = absurd (h refl)
spaced-split_char c (w ∷ ws) h = elim (Bool-cases (c == b' ')) [
  | inl blank ↦
      let e = (nat_eq.beq_iff c b' ').0 blank in
      rw (blank, split_char) (ap (λ d. d ∷ spaced (w ∷ ws)) (sym e))
  | inr other ↦ rw (other, split_char) refl
]

split_char-length : (c : ℕ) (ws : List Text) → length (split_char c ws) ≢ 0
unfolding split_char
split_char-length c [] = ground arith
split_char-length c (w ∷ ws) = elim (Bool-cases (c == b' ')) [
  | inl blank ↦ rw (blank, split_char) (ground arith)
  | inr other ↦ rw (other, split_char) (ground arith)
]

split_blanks-length : (s : Text) → length (split_blanks s) ≢ 0
unfolding split_blanks
split_blanks-length [] = ground arith
split_blanks-length (c ∷ s) = split_char-length c (split_blanks s)

spaced-split_blanks : (s : Text) → spaced (split_blanks s) ≡ s ++ codes " "
unfolding split_blanks
spaced-split_blanks [] = refl
spaced-split_blanks (c ∷ s) =
    spaced-split_char c (split_blanks s) (split_blanks-length s)
    ∙ ap (λ r. c ∷ r) (spaced-split_blanks s)

-- The pieces that the echo provider streams are the text of its completion, with one space behind.
pub echo_stream_complete :
    (messages : List LlmMessage) (system : Option Text)
    → concat (echo_stream messages) ≡ (echo_complete messages system).text ++ codes " "
unfolding echo_stream echo_complete
echo_stream_complete messages system = spaced-split_blanks (echo_answer messages)
