-- ===== src/Retrieval/Faiss/Ready.antt =====
-- What a reachable store promises to its callers.
use grounded_ops_agent.Core.Effects.{returns, bind-ok}
use grounded_ops_agent.Core.Errors.{◌>>=◌, Result, ok}
use grounded_ops_agent.Prelude.{
  ℕ, ◌-◌, ◌*◌, ◌<◌, min, ◌≡◌, refl, sym, ap, ◌∙◌, inl, inr, true, false, not, Option, none, some,
  List, [], ◌∷◌, map, leb, if◌then◌else◌, Bool-cases, Option-cases, length, get_elem?_total, All,
  ◌==◌, Text, nat_eq, text_eq, contains,
}
use grounded_ops_agent.Prelude.Dict.{keys, lookup, lookup-eq-none}
use grounded_ops_agent.Prelude.Float.{Float}
use grounded_ops_agent.Retrieval.Faiss.{
  ChunkMeta, FaissLib, FaissStore, store_size, passes, hit_chunk, meta_at, collect, is_filtering,
  search,
}
use grounded_ops_agent.Retrieval.Faiss.Build.{
  JsonFiles, State, new_index, add_trained, build_sync, index_of, built, build, rebuild_from_pg,
  is_model, rebuild_unless, ensure,
}
use grounded_ops_agent.Retrieval.Faiss.Ensured.{
  IsSynced, Reach, load-Loaded, ensure-loaded, Reach-IsSound,
}
use grounded_ops_agent.Retrieval.Faiss.Persisted.{RoundTrips, build-ok}
use grounded_ops_agent.Retrieval.Faiss.Refined.{IsPosition}
use grounded_ops_agent.Retrieval.Pgvector.{StoredChunk}
use grounded_ops_agent.Retrieval.Types.{RetrievedChunk, SearchFilters}
use grounded_ops_agent.Prelude.{zero, suc, ◌/◌, ◌≤◌, max, subst, ◌⊎◌, arith}
use grounded_ops_agent.Retrieval.Faiss.Build.{or_one}
use grounded_ops_agent.Text.Chars.{codes}

lookup-contains :
    (k : Text) (m : List (Text × ChunkMeta))
    → contains (keys m) k ≡ true
    → (v : ChunkMeta) × (lookup k m ≡ some v)
lookup-contains k m h = elim (Option-cases (lookup k m)) [
  | inl none_ ↦
      let absent = lookup-eq-none k m none_ in let never : true ≡ false = sym h ∙ absent in cc never
  | inr found ↦ found
]

-- The vectors have this dimension.
abbrev pub HasDim : (dim : ℕ) → List (List Float) → Type 0
HasDim dim vectors = All (λ (v : List Float). length v ≡ dim) vectors

-- Each chunk has an embedding of this dimension.
abbrev pub HasEmbeddings : (dim : ℕ) → List StoredChunk → Type 0
HasEmbeddings dim chunks = All (λ (c : StoredChunk). length c.embedding ≡ dim) chunks

-- What FAISS says of its indices, over their dimension and the number of clusters that they train: an
-- index takes vectors of its dimension once it is trained; training asks for vectors of that
-- dimension, at least one for each cluster; only the inverted file starts untrained.
pub record IsReliable {Index : Type 0} (lib : FaissLib Index) (dimension clusters : Index → ℕ)
    : Type 0 where
  pub hnsw :
      (dim links : ℕ)
      → (dimension (lib.hnsw dim links) ≡ dim) × (lib.is_trained (lib.hnsw dim links) ≡ true)
  pub flat : (dim : ℕ) → (dimension (lib.flat dim) ≡ dim) × (lib.is_trained (lib.flat dim) ≡ true)
  pub ivf :
      (dim nlist : ℕ)
      → (dimension (lib.ivf dim nlist) ≡ dim) × (clusters (lib.ivf dim nlist) ≡ nlist)
  pub train :
      (vectors : List (List Float)) (i : Index)
      → HasDim (dimension i) vectors
      → clusters i ≤ length vectors
      → (j : Index) × (lib.train vectors i ≡ ok j)
        × (dimension j ≡ dimension i)
        × (lib.is_trained j ≡ true)
  pub add :
      (vectors : List (List Float)) (i : Index)
      → lib.is_trained i ≡ true
      → HasDim (dimension i) vectors
      → (j : Index) × (lib.add vectors i ≡ ok j)

module _ {Index MapText : Type 0} (lib : FaissLib Index) (json : JsonFiles MapText) where
  meta_at-IsSynced :
      (s : FaissStore Index) (i : ℕ)
      → IsSynced s
      → i < store_size s
      → (found : Text × ChunkMeta) × (meta_at s i ≡ ok found)
  unfolding meta_at
  meta_at-IsSynced s i synced_ h =
      let (k, at) = get_elem?_total s.id_map i h in
      let (v, held) = lookup-contains k s.meta (synced_ i k at) in
      ((k, v), rw (at, meta_at) (rw (held, meta_at) refl))

  -- One hit, on what the mapping holds for it.
  hit-total :
      (filters : Option SearchFilters) (left : ℕ) (score : Float)
      (found : Result (Text × ChunkMeta)) (m : Text × ChunkMeta)
      (skipped rest : Result (List RetrievedChunk)) (a b : List RetrievedChunk)
      → found ≡ ok m
      → skipped ≡ ok a
      → rest ≡ ok b
      → (cs : List RetrievedChunk) × ((do
        (chunk_id, m) ← found
        if not (passes filters m) then skipped else (do
          out ← (if leb left 1 then ok [] else rest)
          ok (hit_chunk chunk_id m score ∷ out)))
          ≡ ok cs)
  hit-total filters left score found m skipped rest a b e f g =
      elim (Bool-cases (passes filters m.1)) [
        | inr no_ ↦ (a, rw e (rw no_ f))
        | inl yes_ ↦ elim (Bool-cases (leb left 1)) [
          | inl last ↦ (hit_chunk m.0 m.1 score ∷ [], rw e (rw (yes_, last) refl))
          | inr more ↦ (hit_chunk m.0 m.1 score ∷ b, rw e (rw (yes_, more, g) refl))
        ]
      ]

  collect-total :
      (s : FaissStore Index) (filters : Option SearchFilters) (left : ℕ)
      (hits : List (Float × Option ℕ))
      → IsSynced s
      → All (IsPosition (store_size s)) hits
      → (cs : List RetrievedChunk) × (collect s filters left hits ≡ ok cs)
  unfolding collect
  collect-total s filters left [] synced_ h = ([], refl)
  collect-total s filters left ((score, none) ∷ hits) synced_ h =
      collect-total s filters left hits synced_ h.1
  collect-total s filters left ((score, some i) ∷ hits) synced_ h =
      let (m, at) = meta_at-IsSynced s i synced_ h.0 in
      let (a, skipped) = collect-total s filters left hits synced_ h.1 in
      let (b, rest) = collect-total s filters (left - 1) hits synced_ h.1 in
      hit-total filters left score (meta_at s i) m (collect s filters left hits)
        (collect s filters (left - 1) hits) a b at skipped rest

  abbrev pub fetch : FaissStore Index → ℕ → Option SearchFilters → ℕ
  fetch s top_k filters = min (if is_filtering filters then top_k * 5 else top_k) (store_size s)

  search-hits :
      (s : FaissStore Index) (index : Index) (query_vector : List Float) (top_k : ℕ)
      (filters : Option SearchFilters) (hits : List (Float × Option ℕ)) (cs : List RetrievedChunk)
      → s.index ≡ some index
      → lib.index_search index query_vector (fetch s top_k filters) ≡ ok hits
      → (store_size s == 0) ≡ false
      → collect s filters top_k hits ≡ ok cs
      → search lib s query_vector top_k filters ≡ ok cs
  unfolding search
  search-hits s index query_vector top_k filters hits cs i e filled c =
      rw (i, search) (rw filled (rw e c))

  search-empty :
      (s : FaissStore Index) (index : Index) (query_vector : List Float) (top_k : ℕ)
      (filters : Option SearchFilters)
      → s.index ≡ some index
      → (store_size s == 0) ≡ true
      → search lib s query_vector top_k filters ≡ ok []
  unfolding search
  search-empty s index query_vector top_k filters i empty = rw (i, search) (rw empty refl)

  search-total :
      (s : FaissStore Index) (index : Index) (query_vector : List Float) (top_k : ℕ)
      (filters : Option SearchFilters) (hits : List (Float × Option ℕ))
      → IsSynced s
      → s.index ≡ some index
      → lib.index_search index query_vector (fetch s top_k filters) ≡ ok hits
      → All (IsPosition (store_size s)) hits
      → (cs : List RetrievedChunk) × (search lib s query_vector top_k filters ≡ ok cs)
  search-total s index query_vector top_k filters hits synced_ i e h =
      elim (Bool-cases (store_size s == 0)) [
        | inl empty ↦ ([], search-empty s index query_vector top_k filters i empty)
        | inr filled ↦
            let (cs, collected) = collect-total s filters top_k hits synced_ h in
            (cs, search-hits s index query_vector top_k filters hits cs i e filled collected)
      ]

  module _ (trips : RoundTrips lib json) where
    -- After any sequence of builds, loads, `ensure`s and restarts, whether they returned or raised, a
    -- search never misses its mapping: it returns whenever the index answers with positions of the
    -- mapping.
    pub search_reachable :
        (st : State lib json) (index : Index) (query_vector : List Float) (top_k : ℕ)
        (filters : Option SearchFilters) (hits : List (Float × Option ℕ))
        → Reach lib json st
        → st.0.index ≡ some index
        → lib.index_search index query_vector (fetch st.0 top_k filters) ≡ ok hits
        → All (IsPosition (store_size st.0)) hits
        → (cs : List RetrievedChunk) × (search lib st.0 query_vector top_k filters ≡ ok cs)
    search_reachable st index query_vector top_k filters hits r =
        search-total st.0 index query_vector top_k filters hits
          (Reach-IsSound lib json trips r).synced

    -- The store that `ensure` leaves.
    abbrev pub IsReady : (model : Text) → FaissStore Index → Type 0
    IsReady model s = (s.embedding_model ≡ some model) × ((index : Index) × (s.index ≡ some index))

    module _ {dimension clusters : Index → ℕ} (reliable : IsReliable lib dimension clusters) where
      -- What a new index asks of the vectors, before it is trained.
      abbrev IsFresh : (dim n : ℕ) → Index → Type 0
      IsFresh dim n i = (dimension i ≡ dim) × ((lib.is_trained i ≡ true) ⊎ (clusters i ≤ n))

      nlist_bounded : (n m : ℕ) → 1 ≤ n → m ≤ n → max 1 (min 100 (or_one lib json m)) ≤ n
      nlist_bounded n zero h k = ground arith
      nlist_bounded n (suc m) h k = ground arith

      ivf-IsFresh :
          (dim n : ℕ)
          → 1 ≤ n
          → IsFresh dim n (lib.ivf dim (max 1 (min 100 (or_one lib json (n / 39)))))
      ivf-IsFresh dim n h =
          let (d, c) = reliable.ivf dim (max 1 (min 100 (or_one lib json (n / 39)))) in
          (d, inr (subst (λ k. k ≤ n) (sym c) (nlist_bounded n (n / 39) h (omega arith))))

      new_index-IsFresh :
          (index_type : Text) (dim n : ℕ)
          → 1 ≤ n
          → IsFresh dim n (new_index lib json index_type dim n)
      unfolding new_index
      new_index-IsFresh index_type dim n h = elim (Bool-cases (index_type == codes "hnsw")) [
        | inl yes_ ↦ rw yes_ (let (d, trained) = reliable.hnsw dim 32 in (d, inl trained))
        | inr no_ ↦ rw no_ (elim (Bool-cases (index_type == codes "ivf")) [
          | inl yes_ ↦ rw yes_ (ivf-IsFresh dim n h)
          | inr flat ↦ rw flat (let (d, trained) = reliable.flat dim in (d, inl trained))
        ])
      ]

      -- The index is trained when it is not, and then takes the vectors.
      trained-total :
          (vectors : List (List Float)) (i : Index)
          → HasDim (dimension i) vectors
          → (lib.is_trained i ≡ true) ⊎ (clusters i ≤ length vectors)
          → (j : Index) × (add_trained lib json vectors
                (if not (lib.is_trained i) then lib.train vectors i else ok i)
              ≡ ok j)
      trained-total vectors i d (inl trained) = rw trained (reliable.add vectors i trained d)
      trained-total vectors i d (inr enough) = elim (Bool-cases (lib.is_trained i)) [
        | inl trained ↦ rw trained (reliable.add vectors i trained d)
        | inr untrained ↦
            let (j, e, same, trained) = reliable.train vectors i d enough in
            rw (untrained, e)
              (reliable.add vectors j trained (subst (λ n. HasDim n vectors) (sym same) d))
      ]

      embeddings-HasDim :
          (dim : ℕ) (chunks : List StoredChunk)
          → HasEmbeddings dim chunks
          → HasDim dim (map (λ (d : StoredChunk). d.embedding) chunks)
      embeddings-HasDim dim [] h = tt
      embeddings-HasDim dim (c ∷ cs) h = (h.0, embeddings-HasDim dim cs h.1)

      index_of-total :
          (s : FaissStore Index) (chunks : List StoredChunk)
          → HasEmbeddings s.dim chunks
          → (index : Index) × (index_of lib json s chunks ≡ ok index)
      unfolding index_of build_sync
      index_of-total s [] h = (lib.flat s.dim, refl)
      index_of-total s (c ∷ cs) h =
          let vectors = map (λ (d : StoredChunk). d.embedding) (c ∷ cs) in
          let fresh = new_index-IsFresh s.index_type s.dim (length vectors) (omega arith) in
          trained-total vectors (new_index lib json s.index_type s.dim (length vectors))
            (subst (λ n. HasDim n vectors) (sym fresh.0) (embeddings-HasDim s.dim (c ∷ cs) h))
            fresh.1

      rebuild-total :
          (chunks : List StoredChunk) (model : Text) (st : State lib json)
          → HasEmbeddings st.0.dim chunks
          → (st' : State lib json) × (rebuild_unless lib json false (ok chunks) model st
              ≡ (ok tt, st'))
            × IsReady model st'.0
      unfolding rebuild_unless rebuild_from_pg built
      rebuild-total chunks model (s, d) h =
          let (index, e) = index_of-total s chunks h in
          (
            _,
            bind-ok (build lib json chunks model) (λ n. returns tt) (s, d)
                (build-ok lib json chunks model s d e),
            (refl, (index, refl)),
          )

      loaded-total :
          (chunks : List StoredChunk) (model : Text) (st : State lib json) (index : Index)
          → HasEmbeddings st.0.dim chunks
          → st.0.index ≡ some index
          → (st' : State lib json) × (rebuild_unless lib json
                (is_model lib json st.0.embedding_model model)
                (ok chunks)
                model
                st
              ≡ (ok tt, st'))
            × IsReady model st'.0
      unfolding rebuild_unless
      loaded-total chunks model st index h i =
          elim (Bool-cases (is_model lib json st.0.embedding_model model)) [
            | inr stale ↦ rw stale (rebuild-total chunks model st h)
            | inl current ↦
                (st, rw current refl, (is_model-eq st.0.embedding_model model current, (index, i)))
          ]
        where
          is_model-eq :
              (m : Option Text) (model : Text) → is_model lib json m model ≡ true → m ≡ some model
          is_model-eq none model h = cc h
          is_model-eq (some m) model h = ap some ((text_eq.beq_iff m model).0 h)

      -- In every reachable state, when the database gives its chunks and each embedding has the
      -- dimension of the store, `ensure` returns and leaves an index with the asked embedding model,
      -- for each type of index. FAISS is taken to train an index on vectors of its dimension, one for
      -- each cluster or more, and to fill it with them once it is trained, and the files to be read
      -- back as they were written.
      pub ensure_total :
          (chunks : List StoredChunk) (model : Text) (st : State lib json)
          → HasEmbeddings st.0.dim chunks
          → Reach lib json st
          → (st' : State lib json) × (ensure lib json (ok chunks) model st ≡ (ok tt, st'))
            × IsReady model st'.0
      ensure_total chunks model st h r =
          elim (load-Loaded lib json trips st (Reach-IsSound lib json trips r)) [
            | inl e ↦
                rw (ensure-loaded lib json trips (ok chunks) model st st false e)
                  (rebuild-total chunks model st h)
            | inr (t, index, e, i, same, _) ↦
                rw (ensure-loaded lib json trips (ok chunks) model st (t, st.1) true e) (
                  loaded-total chunks model (t, st.1) index
                    (subst (λ n. HasEmbeddings n chunks) (sym same) h) i)
          ]
