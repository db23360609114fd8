-- ===== src/Eval/Harness.antt =====
-- src/app/eval/harness.py. What the stores, the clock, the generator and the
-- judge answer is a call on the world outside; the report's text is not modelled.
use grounded_ops_agent.Core.Effects.{◌>>=◌}
use grounded_ops_agent.Agent.Faithfulness.{Judge, score_faithfulness}
use grounded_ops_agent.Agent.Generation.{Source}
use grounded_ops_agent.Agent.Grounded.{GroundedAnswer}
use grounded_ops_agent.Core.Effects.{Code, returns, attempted}
use grounded_ops_agent.Core.Errors.{Result, ok, raise}
use grounded_ops_agent.Eval.{dedup_preserve_order, recall_at_k, mrr, citation_precision_recall}
use grounded_ops_agent.Eval.Gold.{GoldItem}
use grounded_ops_agent.Eval.Statistics.{Rounding, ndcg_at_k, percentile, mean}
use grounded_ops_agent.Prelude.{
  ℕ, ◌*◌, Option, none, some, List, [], ◌∷◌, ◌++◌, map, length, take, Text,
}
use grounded_ops_agent.Prelude.Float.{Float, FloatOps}
use grounded_ops_agent.Retrieval.Faiss.{search}
use grounded_ops_agent.Retrieval.Types.{RetrievedChunk}
use grounded_ops_agent.Text.Chars.{codes}

pub record EvalServices (W : Type 0) : Type 0 where
  pub floats : FloatOps
  pub rounding : Rounding
  pub embed : Text → W → Result (List Float) × W
  pub pg_search : List Float → (top_k : ℕ) → W → Result (List RetrievedChunk) × W
  -- the search of the index that the benchmark ensured
  pub faiss_search : List Float → (top_k : ℕ) → W → Result (List RetrievedChunk) × W
  -- `FaissStore.ensure` of that index
  pub faiss_ensure : W → Result (Unit {0}) × W
  pub perf_counter : W → Float × W
  -- `generate_grounded_answer`
  pub generate : Text → (top_k : ℕ) → W → Result GroundedAnswer × W
  pub judge : Option (Judge W)

-- The lists of `run_eval`, one value for each item and one for each judged answer.
pub record EvalScores : Type 0 where
  pub recalls : List Float
  pub ndcgs : List Float
  pub rrs : List Float
  pub cite_p : List Float
  pub cite_r : List Float
  pub faith : List Float
  pub latencies : List Float
  pub costs : List Float

abbrev pub no_scores : EvalScores
no_scores = record {
  recalls = [];
  ndcgs = [];
  rrs = [];
  cite_p = [];
  cite_r = [];
  faith = [];
  latencies = [];
  costs = [];
}

pub record StoreBenchmark : Type 0 where
  pub label : Text
  pub recall_at_k : Float
  pub p50_ms : Float
  pub p95_ms : Float

pub record EvalReport : Type 0 where
  pub n : ℕ
  pub top_k : ℕ
  pub recall_at_k : Float
  pub ndcg_at_k : Float
  pub mrr : Float
  pub citation_precision : Float
  pub citation_recall : Float
  pub faithfulness : Option Float
  pub latency_p50_ms : Float
  pub latency_p95_ms : Float
  pub avg_cost_usd : Float
  pub benchmark : List StoreBenchmark

-- `dedup_preserve_order([c.doc_id for c in chunks])[:top_k]`
unfoldable pub doc_ranking : List RetrievedChunk → (top_k : ℕ) → List Text
unfolding dedup_preserve_order
doc_ranking chunks top_k =
    take top_k (dedup_preserve_order (map (λ (c : RetrievedChunk). c.doc_id) chunks))

module _ {W : Type 0} (services : EvalServices W) where
  open services use {floats, rounding}

  unfoldable pub read_clock : Code W Float
  read_clock w = let (t, w') = services.perf_counter w in (ok t, w')

  abbrev pub millis : (start now : Float) → Float
  millis start now = floats.mul (floats.sub now start) (floats.of_ℕ 1000)

  -- The judged faithfulness of an answer with sources, when there is a judge.
  unfoldable pub judged : Option (Judge W) → GroundedAnswer → Code W (List Float)
  unfolding score_faithfulness
  judged none answer = returns []
  judged (some judge) answer = judge_sources answer.sources
    where
      judge_sources : List Source → Code W (List Float)
      judge_sources [] = returns []
      judge_sources (s ∷ ss) = do
        result ←
            score_faithfulness judge answer.answer (map (λ (x : Source). x.snippet) (s ∷ ss))
              (some (floats.of_ℕ 0))
        returns (result.score ∷ [])

  -- The body of the loop of `run_eval`.
  unfoldable pub eval_item : (top_k : ℕ) → GoldItem → EvalScores → Code W EvalScores
  unfolding read_clock judged doc_ranking dedup_preserve_order recall_at_k ndcg_at_k mrr
      citation_precision_recall
  eval_item top_k item scores = do
    let relevant = dedup_preserve_order item.relevant_doc_ids
    v ← services.embed item.question
    start ← read_clock
    chunks ← services.pg_search v (top_k * 3)
    now ← read_clock
    let ranking = doc_ranking chunks top_k
    answer ← services.generate item.question top_k
    let cited = dedup_preserve_order (map (λ (s : Source). s.doc_id) answer.sources)
    let (precision, recall) = citation_precision_recall floats cited relevant
    faith ← judged services.judge answer
    returns (record {
      recalls = scores.recalls ++ recall_at_k floats ranking relevant top_k ∷ [];
      ndcgs = scores.ndcgs ++ ndcg_at_k floats rounding ranking relevant top_k ∷ [];
      rrs = scores.rrs ++ mrr floats ranking relevant ∷ [];
      cite_p = scores.cite_p ++ precision ∷ [];
      cite_r = scores.cite_r ++ recall ∷ [];
      faith = scores.faith ++ faith;
      latencies = scores.latencies ++ millis start now ∷ [];
      costs = scores.costs ++ answer.cost_usd ∷ [];
    })

  unfoldable pub eval_items : (top_k : ℕ) → List GoldItem → EvalScores → Code W EvalScores
  unfolding eval_item
  eval_items top_k [] scores = returns scores
  eval_items top_k (item ∷ items) scores = do
    scores' ← eval_item top_k item scores
    eval_items top_k items scores'

  -- The inner loop of `_benchmark`: the recalls and the latencies of one store.
  unfoldable pub benchmark_items :
      (search : List Float → (top_k : ℕ) → W → Result (List RetrievedChunk) × W) (top_k : ℕ)
      → List GoldItem
      → Code W (List Float × List Float)
  unfolding read_clock doc_ranking recall_at_k dedup_preserve_order
  benchmark_items search top_k [] = returns ([], [])
  benchmark_items search top_k (item ∷ items) = do
    v ← services.embed item.question
    start ← read_clock
    chunks ← search v (top_k * 3)
    now ← read_clock
    (recalls, latencies) ← benchmark_items search top_k items
    returns (
      recall_at_k floats (doc_ranking chunks top_k) (dedup_preserve_order item.relevant_doc_ids)
            top_k
          ∷ recalls,
      millis start now ∷ latencies,
    )

  -- `p50` and `p95` stand for the floats 0.50 and 0.95.
  unfoldable pub benchmark_row :
      (p50 p95 : Float) (label : Text) (recalls latencies : List Float) → Result StoreBenchmark
  unfolding percentile mean
  benchmark_row p50 p95 label recalls latencies =
      row_of (percentile floats rounding latencies p50) (percentile floats rounding latencies p95)
    where
      row_of : Result Float → Result Float → Result StoreBenchmark
      row_of (raise e) high = raise e
      row_of (ok low) (raise e) = raise e
      row_of (ok low) (ok high) = ok (record {
        label = label;
        recall_at_k = mean floats rounding recalls;
        p50_ms = low;
        p95_ms = high;
      })

  unfoldable pub benchmark :
      (p50 p95 : Float) (top_k : ℕ) → List GoldItem → Code W (List StoreBenchmark)
  unfolding benchmark_items benchmark_row
  benchmark p50 p95 top_k gold = do
    u ← services.faiss_ensure
    (pg_recalls, pg_latencies) ← benchmark_items services.pg_search top_k gold
    pg ← attempted (benchmark_row p50 p95 (codes "pgvector") pg_recalls pg_latencies)
    (recalls, latencies) ← benchmark_items services.faiss_search top_k gold
    faiss ← attempted (benchmark_row p50 p95 (codes "faiss:flat") recalls latencies)
    returns (pg ∷ faiss ∷ [])

  abbrev mean_or_none : List Float → Option Float
  mean_or_none [] = none
  mean_or_none (x ∷ xs) = some (mean floats rounding (x ∷ xs))

  unfoldable pub run_eval : (p50 p95 : Float) (top_k : ℕ) → List GoldItem → Code W EvalReport
  unfolding eval_items benchmark percentile mean
  run_eval p50 p95 top_k gold = do
    scores ← eval_items top_k gold no_scores
    rows ← benchmark p50 p95 top_k gold
    low ← attempted (percentile floats rounding scores.latencies p50)
    high ← attempted (percentile floats rounding scores.latencies p95)
    returns (record {
      n = length gold;
      top_k = top_k;
      recall_at_k = mean floats rounding scores.recalls;
      ndcg_at_k = mean floats rounding scores.ndcgs;
      mrr = mean floats rounding scores.rrs;
      citation_precision = mean floats rounding scores.cite_p;
      citation_recall = mean floats rounding scores.cite_r;
      faithfulness = mean_or_none scores.faith;
      latency_p50_ms = low;
      latency_p95_ms = high;
      avg_cost_usd = mean floats rounding scores.costs;
      benchmark = rows;
    })
