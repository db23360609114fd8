-- ===== src/Retrieval/Rrf.antt =====
-- src/app/retrieval/rrf.py. The order of the scores is that of the float operations.
pub mod Fused
pub mod Sourced
use grounded_ops_agent.Prelude.{
  ℕ, ◌+◌, Bool, true, false, not, ◌&&◌, Option, none, some, List, [], ◌∷◌, ◌++◌, map, if◌then◌else◌,
  take, ◌==◌, Text, nat_eq, text_eq, contains,
}
use grounded_ops_agent.Prelude.Dict.{keys, values, lookup, insert}
use grounded_ops_agent.Prelude.Float.{Float, zero_float, FloatOps}
use grounded_ops_agent.Retrieval.Types.{RetrievedChunk}
use grounded_ops_agent.Text.Chars.{codes}
use grounded_ops_agent.Text.Order.{text_leb}

-- The two dicts, in insertion order.
pub record Fusion : Type 0 where
  pub scores : List (Text × Float)
  pub representative : List (Text × RetrievedChunk)

abbrev pub empty_fusion : Fusion
empty_fusion = record { scores = []; representative = [] }

-- `scores.get(chunk_id, 0.0)` and `scores[chunk_id]` of a chunk that was scored.
unfoldable pub score_of : Text → List (Text × Float) → Float
unfolding lookup
score_of cid scores = elim (lookup cid scores) [ none ↦ zero_float | some x ↦ x ]

-- `representative.setdefault(chunk.chunk_id, chunk)`
unfoldable pub set_default :
    RetrievedChunk → List (Text × RetrievedChunk) → List (Text × RetrievedChunk)
set_default chunk m =
    if contains (keys m) chunk.chunk_id then m else m ++ (chunk.chunk_id, chunk) ∷ []

module _ (floats : FloatOps) where
  unfoldable pub count_chunk : (k rank : ℕ) → RetrievedChunk → Fusion → Fusion
  unfolding insert score_of set_default
  count_chunk k rank chunk f = record {
    scores =
        insert chunk.chunk_id
          (floats.add (score_of chunk.chunk_id f.scores)
            (floats.div (floats.of_ℕ 1) (floats.of_ℕ (k + rank))))
          f.scores;
    representative = set_default chunk f.representative;
  }

  -- The inner loop; ranks count from 1.
  unfoldable pub count_ranking : (k rank : ℕ) → List RetrievedChunk → Fusion → Fusion
  unfolding count_chunk
  count_ranking k rank [] f = f
  count_ranking k rank (chunk ∷ chunks) f =
      count_ranking k (rank + 1) chunks (count_chunk k rank chunk f)

  unfoldable pub count_rankings : (k : ℕ) → List (List RetrievedChunk) → Fusion → Fusion
  unfolding count_ranking
  count_rankings k [] f = f
  count_rankings k (ranking ∷ rankings) f = count_rankings k rankings (count_ranking k 1 ranking f)

  -- `(scores[a], a) < (scores[b], b)` for chunk ids and scores.
  unfoldable pub key_lt : List (Text × Float) → Text → Text → Bool
  unfolding score_of text_leb
  key_lt scores a b =
      if floats.lt (score_of a scores) (score_of b scores)
      then true
      else if floats.lt (score_of b scores) (score_of a scores)
      then false
      else text_leb a b && not (a == b)

  -- A chunk goes in front of the first one whose key is not greater, so equal keys keep their order.
  unfoldable pub insert_ranked :
      List (Text × Float) → RetrievedChunk → List RetrievedChunk → List RetrievedChunk
  insert_ranked scores c [] = c ∷ []
  insert_ranked scores c (d ∷ ds) =
      if key_lt scores c.chunk_id d.chunk_id then d ∷ insert_ranked scores c ds else c ∷ d ∷ ds

  -- `sorted(..., reverse=True)`, which keeps the order of equal keys.
  unfoldable pub sort_ranked : List (Text × Float) → List RetrievedChunk → List RetrievedChunk
  unfolding insert_ranked
  sort_ranked scores [] = []
  sort_ranked scores (c ∷ cs) = insert_ranked scores c (sort_ranked scores cs)

  unfoldable pub rescored : List (Text × Float) → RetrievedChunk → RetrievedChunk
  unfolding score_of
  rescored scores c = record c { score = score_of c.chunk_id scores; retriever = codes "rrf" }

  abbrev pub top : Option ℕ → List RetrievedChunk → List RetrievedChunk
  top none cs = cs
  top (some k) cs = take k cs

  unfoldable pub reciprocal_rank_fusion :
      List (List RetrievedChunk) → (k : ℕ) → (top_k : Option ℕ) → List RetrievedChunk
  unfolding count_rankings sort_ranked rescored
  reciprocal_rank_fusion rankings k top_k =
      let f = count_rankings k rankings empty_fusion in
      top top_k (map (rescored f.scores) (sort_ranked f.scores (values f.representative)))
