-- ===== src/Retrieval/Service/Filtered.antt =====
-- What a retrieval gives, whichever stores and models are behind it.
use grounded_ops_agent.Core.Errors.{Result, ok, >>=-eq-ok}
use grounded_ops_agent.Prelude.{
  ℕ, zero, suc, ◌*◌, ◌≤◌, max, ◌≡◌, subst, inl, inr, Bool, Option, none, some, List, [], ◌∷◌, map,
  arith, Bool-cases, Option-cases, length, take, All, Text,
}
use grounded_ops_agent.Prelude.Float.{Float, FloatOps}
use grounded_ops_agent.Prelude.Int.{pos}
use grounded_ops_agent.Retrieval.Rrf.{reciprocal_rank_fusion}
use grounded_ops_agent.Retrieval.Rrf.Sourced.{IgnoresScore, reciprocal_rank_fusion-All}
use grounded_ops_agent.Retrieval.Service.{
  Backends, zip_strict, insert_scored, sort_scored, rerank_scored, rerank, assert_model_matches,
  dense_search, ranked, retrieve,
}
use grounded_ops_agent.Retrieval.Types.{RetrievedChunk, SearchFilters, IsAllowed}

-- The stores give chunks that the filters allow; `PgVectorStore` and `FaissStore` do.
pub record HonoursFilters (b : Backends) : Type 0 where
  pub dense :
      (use_faiss : Bool) (v : List Float) (pool : ℕ) (filters : Option SearchFilters)
      {cs : List RetrievedChunk}
      → dense_search b use_faiss v (max pool 25) filters ≡ ok cs
      → All (IsAllowed filters) cs
  pub keyword :
      (query : Text) (pool : ℕ) (filters : Option SearchFilters) {cs : List RetrievedChunk}
      → b.keyword_search query (max pool 25) filters ≡ ok cs
      → All (IsAllowed filters) cs

IsAllowed-IgnoresScore : (filters : Option SearchFilters) → IgnoresScore (IsAllowed filters)
IsAllowed-IgnoresScore none c score retriever h = tt
IsAllowed-IgnoresScore (some f) c score retriever h = h

All-take {ℓ κ} : {A : Type ℓ} (P : A → Type κ) (n : ℕ) (xs : List A) → All P xs → All P (take n xs)
All-take P zero xs h = tt
All-take P (suc n) [] h = tt
All-take P (suc n) (x ∷ xs) h = (h.0, All-take P n xs h.1)

take_le {ℓ} : {A : Type ℓ} (n : ℕ) (xs : List A) → length (take n xs) ≤ n
take_le zero xs = omega arith
take_le (suc n) [] = omega arith
take_le (suc n) (x ∷ xs) = omega (arith, take_le n xs)

-- Scored pairs whose chunks the filters allow.
module _ (filters : Option SearchFilters) where
  abbrev PairAllowed : RetrievedChunk × Float → Type 0
  PairAllowed p = IsAllowed filters p.0

  zip_strict-Allowed :
      (cs : List RetrievedChunk) (xs : List Float) {ps : List (RetrievedChunk × Float)}
      → All (IsAllowed filters) cs
      → zip_strict cs xs ≡ ok ps
      → All PairAllowed ps
  unfolding zip_strict
  zip_strict-Allowed [] [] {ps} h e = let k : [] ≡ ps = cc e in subst (All PairAllowed) k tt
  zip_strict-Allowed [] (x ∷ xs) h e = cc e
  zip_strict-Allowed (c ∷ cs) [] h e = cc e
  zip_strict-Allowed (c ∷ cs) (x ∷ xs) {ps} h e =
      let (qs, zipped, last) = >>=-eq-ok (zip_strict cs xs) (λ qs. ok ((c, x) ∷ qs)) e in
      let k : (c, x) ∷ qs ≡ ps = cc last in
      subst (All PairAllowed) k (h.0, zip_strict-Allowed cs xs h.1 zipped)

  insert_scored-Allowed :
      (floats : FloatOps) (p : RetrievedChunk × Float) (ps : List (RetrievedChunk × Float))
      → PairAllowed p
      → All PairAllowed ps
      → All PairAllowed (insert_scored floats p ps)
  unfolding insert_scored
  insert_scored-Allowed floats (c, x) [] p h = (p, tt)
  insert_scored-Allowed floats (c, x) ((d, y) ∷ ps) p h = elim (Bool-cases (floats.lt x y)) [
    | inl less ↦ rw (less, insert_scored) (h.0, insert_scored-Allowed floats (c, x) ps p h.1)
    | inr other ↦ rw (other, insert_scored) (p, h)
  ]

  sort_scored-Allowed :
      (floats : FloatOps) (ps : List (RetrievedChunk × Float))
      → All PairAllowed ps
      → All PairAllowed (sort_scored floats ps)
  unfolding sort_scored
  sort_scored-Allowed floats [] h = tt
  sort_scored-Allowed floats (p ∷ ps) h =
      insert_scored-Allowed floats p (sort_scored floats ps) h.0 (sort_scored-Allowed floats ps h.1)

  rerank_scored-Allowed :
      (ps : List (RetrievedChunk × Float))
      → All PairAllowed ps
      → All (IsAllowed filters) (map rerank_scored ps)
  rerank_scored-Allowed [] h = tt
  rerank_scored-Allowed ((c, x) ∷ ps) h =
      (IsAllowed-IgnoresScore filters c x _ h.0, rerank_scored-Allowed ps h.1)

  -- At most `top_k` chunks that the filters allow.
  abbrev pub IsAnswer : ℕ → List RetrievedChunk → Type 0
  IsAnswer top_k cs = All (IsAllowed filters) cs × (length cs ≤ top_k)

  taken-IsAnswer :
      (top_k : ℕ) (cs : List RetrievedChunk)
      → All (IsAllowed filters) cs
      → IsAnswer top_k (take top_k cs)
  taken-IsAnswer top_k cs h = (All-take (IsAllowed filters) top_k cs h, take_le top_k cs)

  rerank-IsAnswer :
      (floats : FloatOps) (predict : List (Text × Text) → Result (List Float)) (query : Text)
      (cs : List RetrievedChunk) (top_k : ℕ) {out : List RetrievedChunk}
      → All (IsAllowed filters) cs
      → rerank floats predict query cs (pos top_k) ≡ ok out
      → IsAnswer top_k out
  unfolding rerank
  rerank-IsAnswer floats predict query [] top_k {out} h e =
      let k : [] ≡ out = cc e in subst (IsAnswer top_k) k (tt, omega arith)
  rerank-IsAnswer floats predict query (c ∷ cs) top_k {out} h e =
      let (scores, _, e1) =
        >>=-eq-ok (predict (map (λ (x : RetrievedChunk). (query, x.content)) (c ∷ cs))) _ e in
      let (pairs, zipped, e2) = >>=-eq-ok (zip_strict (c ∷ cs) scores) _ e1 in
      let k : take top_k (map rerank_scored (sort_scored floats pairs)) ≡ out = cc e2 in
      subst (IsAnswer top_k) k (
        taken-IsAnswer top_k (map rerank_scored (sort_scored floats pairs)) (
          rerank_scored-Allowed (sort_scored floats pairs)
            (sort_scored-Allowed floats pairs (zip_strict-Allowed (c ∷ cs) scores h zipped))))

  ranked-IsAnswer :
      (b : Backends) (query : Text) (top_k : ℕ) (fused : List RetrievedChunk)
      {out : List RetrievedChunk}
      → All (IsAllowed filters) fused
      → ranked b query (pos top_k) fused ≡ ok out
      → IsAnswer top_k out
  unfolding ranked
  ranked-IsAnswer b query top_k fused {out} h e = elim (Option-cases b.predict) [
    | inl none_ ↦
        let e' = rw none_ at e in
        let k : take top_k fused ≡ out = cc e' in
        subst (IsAnswer top_k) k (taken-IsAnswer top_k fused h)
    | inr (predict, some_) ↦
        let e' = rw some_ at e in rerank-IsAnswer b.floats predict query fused top_k h e'
  ]

-- A retrieval that returns gives chunks that the filters allow, at most `top_k` of them (which is not
-- negative), with and without FAISS and a reranker, when the stores behind it honour the filters.
pub retrieve-IsAnswer :
    (b : Backends) (query : Text) (top_k : ℕ) (filters : Option SearchFilters) (use_faiss : Bool)
    {out : List RetrievedChunk}
    → HonoursFilters b
    → retrieve b query (pos top_k) filters use_faiss ≡ ok out
    → IsAnswer filters top_k out
unfolding retrieve
retrieve-IsAnswer b query top_k filters use_faiss honours e =
    let (_, _, e1) = >>=-eq-ok (assert_model_matches b) _ e in
    let (v, _, e2) = >>=-eq-ok (b.embed_query query) _ e1 in
    let pool = max (top_k * 4) 25 in
    let (dense, d, e3) = >>=-eq-ok (dense_search b use_faiss v pool filters) _ e2 in
    let (keyword, k, e4) = >>=-eq-ok (b.keyword_search query pool filters) _ e3 in
    let rankings = dense ∷ keyword ∷ [] in
    ranked-IsAnswer filters b query top_k (reciprocal_rank_fusion b.floats rankings b.rrf_k none)
      (reciprocal_rank_fusion-All (IsAllowed filters) b.floats rankings b.rrf_k
        (IsAllowed-IgnoresScore filters)
        (
          honours.dense use_faiss v (top_k * 4) filters d,
          (honours.keyword query (top_k * 4) filters k, tt),
        ))
      e4
