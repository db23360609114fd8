-- ===== src/Retrieval/Rrf/Sourced.antt =====
-- What holds of all chunks of the rankings holds of the fused ones, whatever their new score.
use grounded_ops_agent.Prelude.{
  ℕ, ◌+◌, inl, inr, none, List, [], ◌∷◌, ◌++◌, map, Bool-cases, All, Text, nat_eq, text_eq,
  contains,
}
use grounded_ops_agent.Prelude.Dict.{keys, values}
use grounded_ops_agent.Prelude.Float.{Float, FloatOps}
use grounded_ops_agent.Retrieval.Rrf.{
  Fusion, empty_fusion, set_default, count_chunk, count_ranking, count_rankings, key_lt,
  insert_ranked, sort_ranked, rescored, reciprocal_rank_fusion,
}
use grounded_ops_agent.Retrieval.Types.{RetrievedChunk}

module _ (P : RetrievedChunk → Type 0) where
  -- The predicate does not look at the score and the retriever.
  abbrev pub IgnoresScore : Type 0
  IgnoresScore =
      (c : RetrievedChunk) (score : Float) (retriever : Text)
      → P c
      → P (record c { score = score; retriever = retriever })

  All-values-append :
      (m : List (Text × RetrievedChunk)) (k : Text) (c : RetrievedChunk)
      → All P (values m)
      → P c
      → All P (values (m ++ (k, c) ∷ []))
  All-values-append [] k c h p = (p, tt)
  All-values-append ((j, d) ∷ m) k c h p = (h.0, All-values-append m k c h.1 p)

  set_default-All :
      (c : RetrievedChunk) (m : List (Text × RetrievedChunk))
      → P c
      → All P (values m)
      → All P (values (set_default c m))
  unfolding set_default
  set_default-All c m p h = elim (Bool-cases (contains (keys m) c.chunk_id)) [
    | inl old ↦ rw (old, set_default) h
    | inr new ↦ rw (new, set_default) (All-values-append m c.chunk_id c h p)
  ]

  module _ (floats : FloatOps) where
    abbrev Holds : Fusion → Type 0
    Holds f = All P (values f.representative)

    count_ranking-All :
        (k rank : ℕ) (cs : List RetrievedChunk) (f : Fusion)
        → All P cs
        → Holds f
        → Holds (count_ranking floats k rank cs f)
    unfolding count_ranking count_chunk
    count_ranking-All k rank [] f a h = h
    count_ranking-All k rank (c ∷ cs) f a h =
        count_ranking-All k (rank + 1) cs (count_chunk floats k rank c f) a.1
          (set_default-All c f.representative a.0 h)

    count_rankings-All :
        (k : ℕ) (rankings : List (List RetrievedChunk)) (f : Fusion)
        → All (λ cs. All P cs) rankings
        → Holds f
        → Holds (count_rankings floats k rankings f)
    unfolding count_rankings
    count_rankings-All k [] f a h = h
    count_rankings-All k (cs ∷ rankings) f a h =
        count_rankings-All k rankings (count_ranking floats k 1 cs f) a.1
          (count_ranking-All k 1 cs f a.0 h)

    insert_ranked-All :
        (scores : List (Text × Float)) (c : RetrievedChunk) (cs : List RetrievedChunk)
        → P c
        → All P cs
        → All P (insert_ranked floats scores c cs)
    unfolding insert_ranked
    insert_ranked-All scores c [] p h = (p, tt)
    insert_ranked-All scores c (d ∷ ds) p h =
        elim (Bool-cases (key_lt floats scores c.chunk_id d.chunk_id)) [
          | inl less ↦ rw (less, insert_ranked) (h.0, insert_ranked-All scores c ds p h.1)
          | inr other ↦ rw (other, insert_ranked) (p, h)
        ]

    sort_ranked-All :
        (scores : List (Text × Float)) (cs : List RetrievedChunk)
        → All P cs
        → All P (sort_ranked floats scores cs)
    unfolding sort_ranked
    sort_ranked-All scores [] h = tt
    sort_ranked-All scores (c ∷ cs) h =
        insert_ranked-All scores c (sort_ranked floats scores cs) h.0
          (sort_ranked-All scores cs h.1)

    rescored-All :
        (scores : List (Text × Float)) (cs : List RetrievedChunk)
        → IgnoresScore
        → All P cs
        → All P (map (rescored floats scores) cs)
    unfolding rescored
    rescored-All scores [] ignores h = tt
    rescored-All scores (c ∷ cs) ignores h = (ignores c _ _ h.0, rescored-All scores cs ignores h.1)

    pub reciprocal_rank_fusion-All :
        (rankings : List (List RetrievedChunk)) (k : ℕ)
        → IgnoresScore
        → All (λ cs. All P cs) rankings
        → All P (reciprocal_rank_fusion floats rankings k none)
    unfolding reciprocal_rank_fusion
    reciprocal_rank_fusion-All rankings k ignores h =
        let f = count_rankings floats k rankings empty_fusion in
        rescored-All f.scores (sort_ranked floats f.scores (values f.representative)) ignores (
          sort_ranked-All f.scores (values f.representative)
            (count_rankings-All k rankings empty_fusion h tt))
