-- ===== src/Retrieval/Faiss.antt =====
-- `FaissStore` of src/app/retrieval/faiss_store.py and its `search`. The index is a parameter.
pub mod Build
pub mod Persisted
pub mod Refined
pub mod Ensured
pub mod Ready
pub mod Tests
use grounded_ops_agent.Core.Errors.{◌>>=◌}
use grounded_ops_agent.Core.Errors.{key_error, external, Result, ok, raise}
use grounded_ops_agent.Prelude.{
  ℕ, ◌-◌, ◌*◌, ◌≤◌, min, max, ◌≡◌, subst, inl, inr, Bool, true, false, not, Option, none, some,
  List, [], ◌∷◌, arith, leb, if◌then◌else◌, Bool-cases, Option-cases, length, get_elem?, All, ◌==◌,
  Text, nat_eq, text_eq,
}
use grounded_ops_agent.Prelude.Dict.{lookup}
use grounded_ops_agent.Prelude.Float.{Float}
use grounded_ops_agent.Prelude.Int.{ℤ}
use grounded_ops_agent.Retrieval.Types.{RetrievedChunk, SearchFilters, allows, is_empty}
use grounded_ops_agent.Text.Chars.{codes}
use grounded_ops_agent.Agent.Registry.{add}
use grounded_ops_agent.Core.Errors.{◌>>◌}
use grounded_ops_agent.Retrieval.Types.{IsAllowed}

-- The metadata that is kept for a chunk.
pub record ChunkMeta : Type 0 where
  pub doc_id : Text
  pub source_type : Text
  pub title : Text
  pub content : Text
  pub char_start : ℤ
  pub char_end : ℤ

-- What the program uses of the FAISS library: the three kinds of index with the inner product, and
-- the search, with the scores and the positions of the nearest vectors, `none` for one below 0.
pub record FaissLib (Index : Type 0) : Type 0 where
  pub hnsw : (dim links : ℕ) → Index
  pub ivf : (dim nlist : ℕ) → Index
  pub flat : (dim : ℕ) → Index
  pub is_trained : Index → Bool
  pub train : List (List Float) → Index → Result Index
  pub add : List (List Float) → Index → Result Index
  pub index_search : Index → List Float → ℕ → Result (List (Float × Option ℕ))
  -- the bytes of a file
  pub write_index : Index → List ℕ
  pub read_index : List ℕ → Result Index

pub record FaissStore (Index : Type 0) : Type 0 where
  pub dim : ℕ
  pub index_type : Text
  pub index : Option Index
  pub id_map : List Text
  pub meta : List (Text × ChunkMeta)
  pub embedding_model : Option Text

-- `len(self._id_map)`
abbrev pub store_size : {Index : Type 0} → FaissStore Index → ℕ
store_size s = length s.id_map

-- `filters is None or filters.allows(...)`
unfoldable pub passes : Option SearchFilters → ChunkMeta → Bool
unfolding allows
passes none m = true
passes (some f) m = allows f m.source_type m.doc_id

unfoldable pub hit_chunk : Text → ChunkMeta → Float → RetrievedChunk
hit_chunk chunk_id m score = record {
  chunk_id = chunk_id;
  doc_id = m.doc_id;
  source_type = m.source_type;
  title = m.title;
  content = m.content;
  char_start = m.char_start;
  char_end = m.char_end;
  score = score;
  retriever = codes "faiss";
}

-- `self._id_map[idx]` and `self._meta[chunk_id]`
unfoldable pub meta_at : {Index : Type 0} → FaissStore Index → ℕ → Result (Text × ChunkMeta)
unfolding lookup
meta_at s i = elim (get_elem? s.id_map i) [
  | none ↦ raise (external (codes "IndexError"))
  | some chunk_id ↦ elim (lookup chunk_id s.meta) [
    | none ↦ raise key_error
    | some m ↦ ok (chunk_id, m)
  ]
]

-- The loop, with the number of results that may still come.
unfoldable pub collect :
    {Index : Type 0}
    → FaissStore Index
    → Option SearchFilters
    → (left : ℕ) → List (Float × Option ℕ)
    → Result (List RetrievedChunk)
unfolding meta_at passes hit_chunk
collect s filters left [] = ok []
collect s filters left ((score, none) ∷ hits) = collect s filters left hits
collect s filters left ((score, some i) ∷ hits) =
    let skipped = collect s filters left hits in
    let rest = collect s filters (left - 1) hits in
    (do
      (chunk_id, m) ← meta_at s i
      if not (passes filters m) then skipped else (do
        out ← (if leb left 1 then ok [] else rest)
        ok (hit_chunk chunk_id m score ∷ out)))

-- `filters and not filters.is_empty`
abbrev pub is_filtering : Option SearchFilters → Bool
is_filtering none = false
is_filtering (some f) = not (is_empty f)

unfoldable pub search :
    {Index : Type 0}
    → FaissLib Index
    → FaissStore Index
    → List Float
    → (top_k : ℕ) → Option SearchFilters
    → Result (List RetrievedChunk)
unfolding collect is_empty
search lib s query_vector top_k filters = elim s.index [
  | none ↦ ok []
  | some index ↦ if store_size s == 0 then ok [] else (do
    hits ←
        lib.index_search index query_vector
          (min (if is_filtering filters then top_k * 5 else top_k) (store_size s))
    collect s filters top_k hits)
]

passes-IsAllowed :
    (filters : Option SearchFilters) (chunk_id : Text) (m : ChunkMeta) (score : Float)
    → passes filters m ≡ true
    → IsAllowed filters (hit_chunk chunk_id m score)
unfolding passes hit_chunk
passes-IsAllowed none chunk_id m score h = tt
passes-IsAllowed (some f) chunk_id m score h = h

module _ {Index : Type 0} (lib : FaissLib Index) (s : FaissStore Index)
    (filters : Option SearchFilters) where
  -- What a collected list promises.
  abbrev Promised : ℕ → Result (List RetrievedChunk) → Type 0
  Promised left (ok cs) = All (IsAllowed filters) cs × (length cs ≤ max 1 left)
  Promised left (raise e) = Unit

  Promised-cons :
      (left : ℕ) (c : RetrievedChunk) (rest : Result (List RetrievedChunk))
      → IsAllowed filters c
      → Promised (left - 1) rest
      → Promised left (do out ← (if leb left 1 then ok [] else rest); ok (c ∷ out))
  Promised-cons left c (ok cs) a p = elim (Bool-cases (leb left 1)) [
    | inl last ↦ rw last ((a, tt), omega arith)
    | inr more ↦ rw more ((a, p.0), ground arith)
  ]
  Promised-cons left c (raise e) a p = elim (Bool-cases (leb left 1)) [
    | inl last ↦ rw last ((a, tt), omega arith)
    | inr more ↦ rw more tt
  ]

  Promised-hit :
      (left : ℕ) (score : Float) (found : Result (Text × ChunkMeta))
      (skipped rest : Result (List RetrievedChunk))
      → Promised left skipped
      → Promised (left - 1) rest
      → Promised left (do
        (chunk_id, m) ← found
        if not (passes filters m) then skipped else (do
          out ← (if leb left 1 then ok [] else rest)
          ok (hit_chunk chunk_id m score ∷ out)))
  Promised-hit left score (raise e) skipped rest p q = tt
  Promised-hit left score (ok (chunk_id, m)) skipped rest p q =
      elim (Bool-cases (passes filters m)) [
        | inl yes_ ↦ rw yes_ (
            Promised-cons left (hit_chunk chunk_id m score) rest
              (passes-IsAllowed filters chunk_id m score yes_) q)
        | inr no_ ↦ rw no_ p
      ]

  collect-Promised :
      (left : ℕ) (hits : List (Float × Option ℕ)) → Promised left (collect s filters left hits)
  unfolding collect
  collect-Promised left [] = (tt, omega arith)
  collect-Promised left ((score, none) ∷ hits) = collect-Promised left hits
  collect-Promised left ((score, some i) ∷ hits) =
      Promised-hit left score (meta_at s i) _ _ (collect-Promised left hits)
        (collect-Promised (left - 1) hits)

  hits-Promised :
      (top_k : ℕ) (hits : Result (List (Float × Option ℕ)))
      → Promised top_k (hits >>= λ h. collect s filters top_k h)
  hits-Promised top_k (ok h) = collect-Promised top_k h
  hits-Promised top_k (raise e) = tt

  search-Promised :
      (query_vector : List Float) (top_k : ℕ)
      → Promised top_k (search lib s query_vector top_k filters)
  unfolding search
  search-Promised query_vector top_k = elim (Option-cases s.index) [
    | inl none_ ↦ rw (none_, search) (tt, omega arith)
    | inr (index, some_) ↦
        rw (some_, search)
          (elim (Bool-cases (store_size s == 0)) [
            | inl empty ↦ rw empty (tt, omega arith)
            | inr filled ↦ rw filled (
                hits-Promised top_k (
                  lib.index_search index query_vector
                    (min (if is_filtering filters then top_k * 5 else top_k) (store_size s))))
          ])
  ]

  -- A search in the FAISS index that returns gives chunks that the filters allow, and at most `top_k`
  -- of them (for a `top_k` of 1 or more), whatever the index answers.
  pub search-IsAllowed :
      (query_vector : List Float) (top_k : ℕ) (cs : List RetrievedChunk)
      → 1 ≤ top_k
      → search lib s query_vector top_k filters ≡ ok cs
      → All (IsAllowed filters) cs × (length cs ≤ top_k)
  unfolding search
  search-IsAllowed query_vector top_k cs h e =
      let (allowed_, few) = subst (Promised top_k) e (search-Promised query_vector top_k) in
      (allowed_, omega arith)
