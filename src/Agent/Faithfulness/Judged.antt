-- ===== src/Agent/Faithfulness/Judged.antt =====
-- Every claim is judged once, and gets the score of its verdict.
use grounded_ops_agent.Core.Effects.{◌>>=◌}
use grounded_ops_agent.Agent.Faithfulness.{
  judge_system, uncited, sentences_from, split_claims, FaithfulnessResult, occurs_in, Judge, half,
  label_score, judge_prompt, score_claims, sum_scores, average, score_all, score_faithfulness,
}
use grounded_ops_agent.Core.Effects.{returns, bind-ok}
use grounded_ops_agent.Core.Errors.{Result, ok}
use grounded_ops_agent.Eval.Harness.{judged}
use grounded_ops_agent.Llm.Types.{LlmMessage, user_message, LlmResponse}
use grounded_ops_agent.Prelude.{
  ◌≤◌, ◌≡◌, refl, sym, ap, ◌∙◌, subst, ◌⊎◌, inl, inr, Bool, true, false, Option, List, [], ◌∷◌, map,
  arith, ltb, Bool-cases, length, keep_if, length-take, Text,
}
use grounded_ops_agent.Prelude.Float.{Float}
use grounded_ops_agent.Text.Chars.{codes}
use grounded_ops_agent.Text.Words.{join, strip}

split_claims_le : (answer : Text) → length (split_claims answer 8) ≤ 8
unfolding split_claims
split_claims_le answer =
    let claims =
      map strip (
        keep_if (λ s. ltb 15 (length (strip s)))
          (sentences_from false false [] (uncited answer))) in
    omega (arith, length-take 8 claims)

module _ {W : Type 0} (judge : Judge W) where
  open judge use {floats, upper}

  abbrev said : (word : Text) → LlmResponse → Bool
  said word r = occurs_in word (upper (strip r.text))

  -- The score of a verdict: `UNSUPPORTED` is looked for first, since it contains `SUPPORTED`, and a
  -- verdict without any of the labels counts as unsupported.
  abbrev pub IsVerdict : LlmResponse → Float → Type 0
  IsVerdict r x =
      ((said (codes "UNSUPPORTED") r ≡ true) × (x ≡ floats.of_ℕ 0))
      ⊎ (((said (codes "UNSUPPORTED") r ≡ false)
            × (said (codes "PARTIAL") r ≡ true)
            × (x ≡ half judge))
          ⊎ (((said (codes "UNSUPPORTED") r ≡ false)
                × (said (codes "PARTIAL") r ≡ false)
                × (said (codes "SUPPORTED") r ≡ true)
                × (x ≡ floats.of_ℕ 1))
              ⊎ ((said (codes "UNSUPPORTED") r ≡ false)
                  × (said (codes "PARTIAL") r ≡ false)
                  × (said (codes "SUPPORTED") r ≡ false)
                  × (x ≡ floats.of_ℕ 0))))

  label_score-IsVerdict : (r : LlmResponse) → IsVerdict r (label_score judge r.text)
  unfolding label_score
  label_score-IsVerdict r = elim (Bool-cases (said (codes "UNSUPPORTED") r)) [
    | inl no_ ↦ inl (no_, rw (no_, label_score) refl)
    | inr a ↦ inr (elim (Bool-cases (said (codes "PARTIAL") r)) [
      | inl part ↦ inl (a, part, rw (a, part, label_score) refl)
      | inr b ↦ inr (elim (Bool-cases (said (codes "SUPPORTED") r)) [
        | inl yes_ ↦ inl (a, b, yes_, rw (a, b, yes_, label_score) refl)
        | inr c ↦ inr (a, b, c, rw (a, b, c, label_score) refl)
      ])
    ])
  ]

  -- Every call of the judge returns.
  abbrev pub JudgeAnswers : Type 0
  JudgeAnswers =
      (messages : List LlmMessage) (temperature : Option Float) (w : W)
      → (r : LlmResponse) × ((judge.complete_judge judge_system messages 8 temperature w).0 ≡ ok r)

  abbrev asked : (context claim : Text) → Option Float → W → Result LlmResponse × W
  asked context claim temperature w =
      judge.complete_judge judge_system (user_message (judge_prompt judge context claim) ∷ []) 8
        temperature w

  -- From `w` to `w'` the judge was called once for each claim, in order, and each claim has the score
  -- of the verdict on it.
  unfoldable pub Verdicts :
      (context : Text) (temperature : Option Float) (w : W)
      → List Text
      → List (Text × Float)
      → W
      → Type 0
  Verdicts context temperature w [] [] w' = w ≡ w'
  Verdicts context temperature w (claim ∷ claims) ((shown, x) ∷ per_claim) w' =
      (r : LlmResponse) × ((asked context claim temperature w).0 ≡ ok r)
      × (shown ≡ claim)
      × IsVerdict r x
      × Verdicts context temperature (asked context claim temperature w).1 claims per_claim w'
  Verdicts context temperature w _ _ w' = ⊥

  -- The sum of the scores, from the left.
  unfoldable pub total_from : Float → List (Text × Float) → Float
  total_from acc [] = acc
  total_from acc (p ∷ per_claim) = total_from (floats.add acc p.1) per_claim

  -- The mean of the scores, and 0 without claims.
  abbrev pub mean_of : List (Text × Float) → Float
  mean_of [] = floats.of_ℕ 0
  mean_of (p ∷ per_claim) =
      floats.div (total_from (floats.of_ℕ 0) (p ∷ per_claim)) (floats.of_ℕ (length (p ∷ per_claim)))

  sum_scores-total_from :
      (acc : Float) (per_claim : List (Text × Float))
      → sum_scores judge acc per_claim ≡ total_from acc per_claim
  unfolding sum_scores total_from
  sum_scores-total_from acc [] = refl
  sum_scores-total_from acc ((c, x) ∷ per_claim) =
      sum_scores-total_from (floats.add acc x) per_claim

  module _ (answers : JudgeAnswers) where
    -- What scoring the claims gives.
    abbrev Scored : Text → Option Float → List Text → W → Result (List (Text × Float)) × W → Type 0
    Scored context temperature claims w x =
        (per_claim : List (Text × Float)) × (x.0 ≡ ok per_claim)
        × Verdicts context temperature w claims per_claim x.1

    score_claims-Scored :
        (context : Text) (temperature : Option Float) (claims : List Text) (w : W)
        → Scored context temperature claims w (score_claims judge context temperature claims w)
    unfolding score_claims Verdicts
    score_claims-Scored context temperature [] w = ([], refl, refl)
    score_claims-Scored context temperature (claim ∷ claims) w =
        let messages = user_message (judge_prompt judge context claim) ∷ [] in
        let (r, e) = answers messages temperature w in
        let w' = (asked context claim temperature w).1 in
        let (more, e1, judged) = score_claims-Scored context temperature claims w' in
        let w'' = (score_claims judge context temperature claims w').1 in
        let out : List (Text × Float) = (claim, label_score judge r.text) ∷ more in
        let step : score_claims judge context temperature (claim ∷ claims) w ≡ (ok out, w'') =
          bind-ok (judge.complete_judge judge_system messages 8 temperature)
            (λ response. score_claims judge context temperature claims >>= λ rest.
              returns ((claim, label_score judge response.text) ∷ rest))
            w (ap (λ q. (q, w')) e)
          ∙ bind-ok (score_claims judge context temperature claims)
              (λ rest. returns ((claim, label_score judge r.text) ∷ rest)) w'
              (ap (λ q. (q, w'')) e1) in
        subst (Scored context temperature (claim ∷ claims) w) (sym step)
          (out, refl, (r, e, refl, label_score-IsVerdict r, judged))

    -- What scoring an answer gives.
    abbrev Averaged : Text → Option Float → List Text → W → Result FaithfulnessResult × W → Type 0
    Averaged context temperature claims w x =
        (result : FaithfulnessResult) × (x.0 ≡ ok result)
        × Verdicts context temperature w claims result.per_claim x.1
        × (result.score ≡ mean_of result.per_claim)

    average-mean_of :
        (claim : Text) (claims : List Text) (context : Text) (temperature : Option Float) (w w' : W)
        (per_claim : List (Text × Float))
        → Verdicts context temperature w (claim ∷ claims) per_claim w'
        → (average judge per_claim).score ≡ mean_of per_claim
    unfolding average Verdicts
    average-mean_of claim claims context temperature w w' [] judged = absurd judged
    average-mean_of claim claims context temperature w w' (p ∷ per_claim) judged =
        ap (λ t. floats.div t (floats.of_ℕ (length (p ∷ per_claim))))
          (sum_scores-total_from (floats.of_ℕ 0) (p ∷ per_claim))

    average-Averaged :
        (claims : List Text) (context : Text) (temperature : Option Float) (w : W)
        → Averaged context temperature claims w (score_all judge claims context temperature w)
    unfolding average Verdicts
    average-Averaged [] context temperature w =
        (record { score = floats.of_ℕ 0; per_claim = [] }, refl, refl, refl)
    average-Averaged (claim ∷ claims) context temperature w =
        let (per_claim, e, judged) = score_claims-Scored context temperature (claim ∷ claims) w in
        let scored = score_claims judge context temperature (claim ∷ claims) in
        let step : score_all judge (claim ∷ claims) context temperature w
            ≡ (ok (average judge per_claim), (scored w).1) =
          bind-ok scored (λ ps. returns (average judge ps)) w (ap (λ q. (q, (scored w).1)) e) in
        subst (Averaged context temperature (claim ∷ claims) w) (sym step) (
          average judge per_claim,
          refl,
          judged,
          average-mean_of claim claims context temperature w (scored w).1 per_claim judged,
        )

    -- When the judge answers every call, an answer is scored: each of its first claims, 8 at most, is
    -- judged by exactly one call, in order, and gets 0, 1/2 or 1 by the label in the judge's verdict;
    -- the score is the mean of these, and 0 for an answer without claims.
    pub score_faithfulness_judged :
        (answer : Text) (context_chunks : List Text) (temperature : Option Float) (w : W)
        → (result : FaithfulnessResult) × ((score_faithfulness judge answer context_chunks
              temperature w).0
            ≡ ok result)
          × Verdicts
              (join (codes "\n\n") context_chunks)
              temperature
              w
              (split_claims answer 8)
              result.per_claim
              (score_faithfulness judge answer context_chunks temperature w).1
          × (result.score ≡ mean_of result.per_claim)
          × (length (split_claims answer 8) ≤ 8)
    unfolding score_faithfulness
    score_faithfulness_judged answer context_chunks temperature w =
        let (result, e, judged, mean_) =
          average-Averaged (split_claims answer 8) (join (codes "\n\n") context_chunks) temperature
            w in
        (result, e, judged, mean_, split_claims_le answer)
