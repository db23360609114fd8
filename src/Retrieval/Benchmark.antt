-- ===== src/Retrieval/Benchmark.antt =====
-- src/app/retrieval/benchmark.py; the table that it prints is not modelled.
use grounded_ops_agent.Core.Effects.{◌>>=◌}
use grounded_ops_agent.Core.Effects.{Code, returns, attempted}
use grounded_ops_agent.Core.Errors.{Result, ok}
use grounded_ops_agent.Eval.Statistics.{Rounding, percentile, mean}
use grounded_ops_agent.Prelude.{
  ℕ, ◌+◌, List, [], ◌∷◌, map, if◌then◌else◌, length, ◌==◌, Text, nat_eq, text_eq, contains,
}
use grounded_ops_agent.Prelude.Float.{Float, FloatOps}
use grounded_ops_agent.Retrieval.Types.{RetrievedChunk}

pub record BenchmarkRow : Type 0 where
  pub label : Text
  pub recall_at_k : Float
  pub mrr : Float
  pub p50_ms : Float
  pub p95_ms : Float
  pub n_queries : ℕ

-- A store, the embedding provider and the clock.
pub record Timed (W : Type 0) : Type 0 where
  pub floats : FloatOps
  pub rounding : Rounding
  pub embed_query : Text → W → Result (List Float) × W
  pub search : List Float → (top_k : ℕ) → W → Result (List RetrievedChunk) × W
  pub perf_counter : W → Float × W

module _ {W : Type 0} (timed : Timed W) where
  open timed use {floats, rounding}

  -- The loop over the ranks; it stops at the relevant chunk.
  unfoldable pub reciprocal_rank : (rank : ℕ) (relevant : Text) → List Text → Float
  reciprocal_rank rank relevant [] = floats.of_ℕ 0
  reciprocal_rank rank relevant (id ∷ ids) =
      if id == relevant
      then floats.div (floats.of_ℕ 1) (floats.of_ℕ rank)
      else reciprocal_rank (rank + 1) relevant ids

  abbrev clock : Code W Float
  clock w = let (t, w') = timed.perf_counter w in (ok t, w')

  -- The latencies, the recalls and the reciprocal ranks of the queries.
  unfoldable pub time_queries :
      (top_k : ℕ) → List (Text × Text) → Code W (List Float × (List Float × List Float))
  unfolding reciprocal_rank
  time_queries top_k [] = returns ([], ([], []))
  time_queries top_k ((text, relevant) ∷ queries) = do
    v ← timed.embed_query text
    start ← clock
    results ← timed.search v top_k
    now ← clock
    let ids = map (λ (r : RetrievedChunk). r.chunk_id) results
    let recall = if contains ids relevant then floats.of_ℕ 1 else floats.of_ℕ 0
    let rr = reciprocal_rank 1 relevant ids
    (latencies, (recalls, rrs)) ← time_queries top_k queries
    returns (
      floats.mul (floats.sub now start) (floats.of_ℕ 1000) ∷ latencies,
      (recall ∷ recalls, rr ∷ rrs),
    )

  -- `p50` and `p95` stand for the floats 0.50 and 0.95.
  unfoldable pub benchmark_store :
      (p50 p95 : Float) (label : Text) → List (Text × Text) → (top_k : ℕ) → Code W BenchmarkRow
  unfolding time_queries percentile mean
  benchmark_store p50 p95 label queries top_k = do
    (latencies, (recalls, rrs)) ← time_queries top_k queries
    low ← attempted (percentile floats rounding latencies p50)
    high ← attempted (percentile floats rounding latencies p95)
    returns (record {
      label = label;
      recall_at_k = mean floats rounding recalls;
      mrr = mean floats rounding rrs;
      p50_ms = low;
      p95_ms = high;
      n_queries = length queries;
    })
