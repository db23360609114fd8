-- ===== src/Agent/Faithfulness/Tests.antt =====
-- A judge that supports every claim and counts its calls.
use grounded_ops_agent.Agent.Faithfulness.{
  split_claims, FaithfulnessResult, Judge, score_faithfulness,
}
use grounded_ops_agent.Agent.Faithfulness.Judged.{Verdicts, mean_of, score_faithfulness_judged}
use grounded_ops_agent.Core.Errors.{ok}
use grounded_ops_agent.Llm.Types.{no_usage}
use grounded_ops_agent.Prelude.{ℕ, ◌+◌, ◌≤◌, ◌≡◌, refl, none, [], ◌∷◌, length, Text}
use grounded_ops_agent.Retrieval.Tests.{counting}
use grounded_ops_agent.Text.Chars.{codes}
use grounded_ops_agent.Text.Words.{join}

abbrev kind_judge : Judge ℕ
kind_judge = record {
  floats = counting;
  upper = λ t. t;
  complete_judge = λ system messages max_tokens temperature w. (
    ok (record {
      text = codes "SUPPORTED";
      tool_calls = [];
      usage = no_usage;
      stop_reason = codes "end_turn";
      model = [];
    }),
    w + 1,
  );
}

abbrev an_answer : Text
an_answer = codes "Latency rose after the deploy [1]. The cache was full and cold [2]."

score_faithfulness_judged_example :
    (result : FaithfulnessResult) × ((score_faithfulness kind_judge an_answer
        (codes "c" ∷ [])
        none
        0).0
      ≡ ok result)
    × Verdicts kind_judge
        (codes "c")
        none
        0
        (split_claims an_answer 8)
        result.per_claim
        (score_faithfulness kind_judge an_answer (codes "c" ∷ []) none 0).1
    × (result.score ≡ mean_of kind_judge result.per_claim)
    × (length (split_claims an_answer 8) ≤ 8)
unfolding join
score_faithfulness_judged_example =
    score_faithfulness_judged kind_judge (λ messages t w. (_, refl)) an_answer (codes "c" ∷ []) none
      0
