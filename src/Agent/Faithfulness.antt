-- ===== src/Agent/Faithfulness.antt =====
-- src/app/agent/faithfulness.py. The judge is a call on the world outside; `str.upper` is a
-- parameter.
pub mod Judged
pub mod Tests
use grounded_ops_agent.Core.Effects.{◌>>=◌}
use grounded_ops_agent.Agent.Citations.{replace_from}
use grounded_ops_agent.Core.Effects.{Code, returns}
use grounded_ops_agent.Core.Errors.{◌>>◌, Result}
use grounded_ops_agent.Llm.Types.{LlmMessage, user_message, LlmResponse}
use grounded_ops_agent.Prelude.{
  ℕ, Bool, true, false, ◌&&◌, ◌||◌, Option, List, [], ◌∷◌, ◌++◌, map, ltb, if◌then◌else◌, length,
  take, concat, keep_if, ◌==◌, Text, nat_eq, text_eq,
}
use grounded_ops_agent.Prelude.Float.{Float, FloatOps}
use grounded_ops_agent.Text.Chars.{codes, is_space}
use grounded_ops_agent.Text.Words.{join, strip}

unfoldable pub judge_system : Text
judge_system = concat (
    codes "You are a strict grounding judge. Given CONTEXT and a CLAIM, decide whether the "
    ∷ codes "context supports the claim. Reply with exactly one word: SUPPORTED, PARTIAL, or "
    ∷ codes "UNSUPPORTED. Do not explain."
    ∷ [])

-- `_CITE.sub("", answer)`: no index is known, so each match is removed.
unfoldable pub uncited : Text → Text
uncited answer = (replace_from (λ i. false) 0 answer).0

abbrev pub is_stop : ℕ → Bool
is_stop c = c == b'.' || c == b'!' || c == b'?'

-- `re.split(r"(?<=[.!?])\s+", text)`: `cur` is the sentence that is read, `stopped` says that its last
-- character is a stop, and `gap` that white space behind it is being skipped.
unfoldable pub sentences_from : (gap stopped : Bool) (cur : Text) → Text → List Text
sentences_from gap stopped cur [] = cur ∷ []
sentences_from true stopped cur (c ∷ s) =
    let skipped = sentences_from true false [] s in
    let started = sentences_from false (is_stop c) (c ∷ []) s in
    if is_space c then skipped else started
sentences_from false stopped cur (c ∷ s) =
    let ended = cur ∷ sentences_from true false [] s in
    let longer = sentences_from false (is_stop c) (cur ++ c ∷ []) s in
    if stopped && is_space c then ended else longer

unfoldable pub split_claims : Text → (limit : ℕ) → List Text
unfolding uncited sentences_from strip
split_claims answer limit = take limit (
    map strip
      (keep_if (λ s. ltb 15 (length (strip s))) (sentences_from false false [] (uncited answer))))

pub record FaithfulnessResult : Type 0 where
  pub score : Float
  pub per_claim : List (Text × Float)

abbrev pub begins_with : Text → Text → Bool
begins_with [] s = true
begins_with (p ∷ ps) [] = false
begins_with (p ∷ ps) (c ∷ s) = p == c && begins_with ps s

-- `part in text`
unfoldable pub occurs_in : Text → Text → Bool
occurs_in part [] = begins_with part []
occurs_in part (c ∷ s) = begins_with part (c ∷ s) || occurs_in part s

-- The judge: a completion for a system prompt, the messages, `max_tokens` and a temperature.
pub record Judge (W : Type 0) : Type 0 where
  pub floats : FloatOps
  pub upper : Text → Text
  pub complete_judge :
      (system : Text)
      → List LlmMessage
      → (max_tokens : ℕ) → (temperature : Option Float) → W
      → Result LlmResponse × W

module _ {W : Type 0} (judge : Judge W) where
  open judge use {floats, upper}

  abbrev pub half : Float
  half = floats.div (floats.of_ℕ 1) (floats.of_ℕ 2)

  -- `_label_score`
  unfoldable pub label_score : Text → Float
  unfolding occurs_in strip
  label_score text =
      let label = upper (strip text) in
      if occurs_in (codes "UNSUPPORTED") label
      then floats.of_ℕ 0
      else if occurs_in (codes "PARTIAL") label
      then half
      else if occurs_in (codes "SUPPORTED") label
      then floats.of_ℕ 1
      else floats.of_ℕ 0

  unfoldable pub judge_prompt : (context claim : Text) → Text
  judge_prompt context claim =
      codes "CONTEXT:\n"
      ++ (context
          ++ (codes "\n\nCLAIM:\n"
              ++ (claim ++ codes "\n\nVerdict (SUPPORTED / PARTIAL / UNSUPPORTED):")))

  -- The loop over the claims.
  unfoldable pub score_claims :
      (context : Text) (temperature : Option Float) → List Text → Code W (List (Text × Float))
  unfolding judge_prompt label_score
  score_claims context temperature [] = returns []
  score_claims context temperature (claim ∷ claims) = do
    response ←
        judge.complete_judge judge_system (user_message (judge_prompt context claim) ∷ []) 8
          temperature
    more ← score_claims context temperature claims
    returns ((claim, label_score response.text) ∷ more)

  -- `sum(s for _, s in per_claim)` from an accumulator.
  unfoldable pub sum_scores : Float → List (Text × Float) → Float
  sum_scores acc [] = acc
  sum_scores acc ((claim, x) ∷ per_claim) = sum_scores (floats.add acc x) per_claim

  unfoldable pub average : List (Text × Float) → FaithfulnessResult
  unfolding sum_scores
  average per_claim = record {
    score = floats.div (sum_scores (floats.of_ℕ 0) per_claim) (floats.of_ℕ (length per_claim));
    per_claim = per_claim;
  }

  abbrev pub score_all :
      List Text → (context : Text) → (temperature : Option Float) → Code W FaithfulnessResult
  score_all [] context temperature = returns (record { score = floats.of_ℕ 0; per_claim = [] })
  score_all (claim ∷ claims) context temperature = do
    per_claim ← score_claims context temperature (claim ∷ claims)
    returns (average per_claim)

  unfoldable pub score_faithfulness :
      (answer : Text) (context_chunks : List Text) (temperature : Option Float)
      → Code W FaithfulnessResult
  unfolding split_claims score_claims average join
  score_faithfulness answer context_chunks temperature =
      score_all (split_claims answer 8) (join (codes "\n\n") context_chunks) temperature
