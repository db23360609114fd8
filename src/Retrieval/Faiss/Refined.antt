-- ===== src/Retrieval/Faiss/Refined.antt =====
-- The search of a built store against a search over the list of the chunks itself.
use grounded_ops_agent.Core.Errors.{◌>>=◌, Result, ok}
use grounded_ops_agent.Prelude.{
  ℕ, zero, suc, ◌-◌, ◌*◌, ◌≤◌, ◌<◌, min, ◌≡◌, refl, sym, ap, ◌∙◌, subst, inl, inr, true, false,
  Option, none, some, List, [], ◌∷◌, arith, leb, if◌then◌else◌, Bool-cases, length, get_elem?, take,
  get_elem?_total, All, ◌==◌, Text, nat_eq, text_eq, contains, Distinct, beq_refl,
}
use grounded_ops_agent.Prelude.Dict.{lookup, insert, lookup-insert}
use grounded_ops_agent.Prelude.Float.{Float}
use grounded_ops_agent.Retrieval.Faiss.{
  ChunkMeta, FaissLib, FaissStore, store_size, passes, hit_chunk, meta_at, collect, is_filtering,
  search,
}
use grounded_ops_agent.Retrieval.Faiss.Build.{
  JsonFiles, Disk, meta_of, metas_from, ids_of, built, build,
}
use grounded_ops_agent.Retrieval.Faiss.Persisted.{build-eq-ok}
use grounded_ops_agent.Retrieval.Pgvector.{StoredChunk}
use grounded_ops_agent.Retrieval.Types.{RetrievedChunk, SearchFilters}

-- The chunks that stand at the positions which the index gave, as far as the filters allow them.
unfoldable pub expected :
    List StoredChunk → Option SearchFilters → List (Float × Option ℕ) → List RetrievedChunk
expected chunks filters [] = []
expected chunks filters ((score, none) ∷ hits) = expected chunks filters hits
expected chunks filters ((score, some i) ∷ hits) = elim (get_elem? chunks i) [
  | none ↦ expected chunks filters hits
  | some c ↦
      if passes filters (meta_of c)
      then hit_chunk c.chunk_id (meta_of c) score ∷ expected chunks filters hits
      else expected chunks filters hits
]

-- The index holds `n` vectors.
abbrev pub IsPosition : ℕ → Float × Option ℕ → Type 0
IsPosition n (score, none) = Unit
IsPosition n (score, some i) = i < n

lookup-metas_new :
    (k : Text) (cs : List StoredChunk) (m : List (Text × ChunkMeta))
    → contains (ids_of cs) k ≡ false
    → lookup k (metas_from cs m) ≡ lookup k m
unfolding metas_from
lookup-metas_new k [] m h = refl
lookup-metas_new k (c ∷ cs) m h =
    lookup-metas_new k cs (insert c.chunk_id (meta_of c) m) (ground arith)
    ∙ lookup-insert c.chunk_id k (meta_of c) m
    ∙ ground arith

contains-ids_of :
    (cs : List StoredChunk) (i : ℕ) {c : StoredChunk}
    → get_elem? cs i ≡ some c
    → contains (ids_of cs) c.chunk_id ≡ true
contains-ids_of [] i h = cc h
contains-ids_of (b ∷ cs) zero {c} h = ground (arith, beq_refl c.chunk_id)
contains-ids_of (b ∷ cs) (suc i) h = ground (arith, contains-ids_of cs i h)

-- With distinct ids the dict has the metadata of each chunk.
lookup-metas_from :
    (cs : List StoredChunk) (m : List (Text × ChunkMeta)) (i : ℕ) {c : StoredChunk}
    → Distinct (ids_of cs)
    → get_elem? cs i ≡ some c
    → lookup c.chunk_id (metas_from cs m) ≡ some (meta_of c)
unfolding metas_from
lookup-metas_from [] m i d h = cc h
lookup-metas_from (b ∷ cs) m zero {c} d h =
    let e : b ≡ c = ground arith in
    subst
      (λ x. lookup x.chunk_id (metas_from cs (insert b.chunk_id (meta_of b) m)) ≡ some (meta_of x))
      e
      (lookup-metas_new b.chunk_id cs (insert b.chunk_id (meta_of b) m) d.0
        ∙ lookup-insert b.chunk_id b.chunk_id (meta_of b) m
        ∙ ground (arith, beq_refl b.chunk_id))
lookup-metas_from (b ∷ cs) m (suc i) d h =
    lookup-metas_from cs (insert b.chunk_id (meta_of b) m) i d.1 h

get_elem?-ids_of :
    (cs : List StoredChunk) (i : ℕ) {c : StoredChunk}
    → get_elem? cs i ≡ some c
    → get_elem? (ids_of cs) i ≡ some c.chunk_id
get_elem?-ids_of [] i h = cc h
get_elem?-ids_of (b ∷ cs) zero h = ground arith
get_elem?-ids_of (b ∷ cs) (suc i) h = get_elem?-ids_of cs i h

-- The rest of a result list, of which there may be none when one hit is left.
taken-hit :
    (left : ℕ) (hit : RetrievedChunk) (rest : Result (List RetrievedChunk))
    (xs : List RetrievedChunk)
    → 1 ≤ left
    → (1 ≤ left - 1 → rest ≡ ok (take (left - 1) xs))
    → (do out ← (if leb left 1 then ok [] else rest); ok (hit ∷ out)) ≡ ok (take left (hit ∷ xs))
taken-hit zero hit rest xs one h = elim one [ ]
taken-hit (suc zero) hit rest xs one h = refl
taken-hit (suc (suc n)) hit rest xs one h =
    let less : suc (suc n) - 1 ≡ suc n = omega arith in
    let e : rest ≡ ok (take (suc n) xs) = h (omega arith) ∙ ap (λ k. ok (take k xs)) less in
    let more : leb (suc (suc n)) 1 ≡ false = ground arith in rw more (rw e refl)

module _ {Index MapText : Type 0} (lib : FaissLib Index) (json : JsonFiles MapText)
    (chunks : List StoredChunk) (distinct_ : Distinct (ids_of chunks)) (model : Text)
    (index : Index) (s : FaissStore Index) where
  abbrev store : FaissStore Index
  store = built lib json chunks model index s

  meta_at-built :
      (i : ℕ) {c : StoredChunk}
      → get_elem? chunks i ≡ some c
      → meta_at store i ≡ ok (c.chunk_id, meta_of c)
  unfolding meta_at built
  meta_at-built i {c} h =
      rw (get_elem?-ids_of chunks i h, meta_at)
        (rw (lookup-metas_from chunks [] i distinct_ h, meta_at) refl)

  module _ (filters : Option SearchFilters) where
    -- One more hit.
    collect-hit :
        (left i : ℕ) (score : Float) (hits : List (Float × Option ℕ)) (c : StoredChunk)
        → 1 ≤ left
        → get_elem? chunks i ≡ some c
        → ((more : ℕ)
            → 1 ≤ more
            → collect store filters more hits ≡ ok (take more (expected chunks filters hits)))
        → collect store filters left ((score, some i) ∷ hits)
          ≡ ok (take left (expected chunks filters ((score, some i) ∷ hits)))
    unfolding collect expected
    collect-hit left i score hits c one at ih = elim (Bool-cases (passes filters (meta_of c))) [
      | inr no_ ↦
          rw (meta_at-built i at, collect) (rw (at, expected) (rw (no_, collect) (ih left one)))
      | inl yes_ ↦
          rw (meta_at-built i at, collect)
            (rw (at, expected)
              (rw (yes_, collect)
                (taken-hit left (hit_chunk c.chunk_id (meta_of c) score)
                  (collect store filters (left - 1) hits) (expected chunks filters hits) one
                  (λ o. ih (left - 1) o))))
    ]

    collect-expected :
        (left : ℕ) (hits : List (Float × Option ℕ))
        → 1 ≤ left
        → All (IsPosition (length chunks)) hits
        → collect store filters left hits ≡ ok (take left (expected chunks filters hits))
    unfolding collect expected
    collect-expected (suc left) [] one h = refl
    collect-expected zero hits one h = elim one [ ]
    collect-expected left ((score, none) ∷ hits) one h = collect-expected left hits one h.1
    collect-expected left ((score, some i) ∷ hits) one h =
        let (c, at) = get_elem?_total chunks i h.0 in
        collect-hit left i score hits c one at (λ more o. collect-expected more hits o h.1)

expected_none :
    (filters : Option SearchFilters) (hits : List (Float × Option ℕ))
    → expected [] filters hits ≡ []
unfolding expected
expected_none filters [] = refl
expected_none filters ((score, none) ∷ hits) = expected_none filters hits
expected_none filters ((score, some i) ∷ hits) = expected_none filters hits

take_none {ℓ} : {A : Type ℓ} (n : ℕ) → take {A = A} n [] ≡ []
take_none zero = refl
take_none (suc n) = refl

module _ {Index MapText : Type 0} (lib : FaissLib Index) (json : JsonFiles MapText) where
  search-built :
      (chunks : List StoredChunk) (model : Text) (index : Index) (s : FaissStore Index)
      (query_vector : List Float) (top_k : ℕ) (filters : Option SearchFilters)
      (hits : List (Float × Option ℕ))
      → Distinct (ids_of chunks)
      → 1 ≤ top_k
      → lib.index_search index query_vector
          (min (if is_filtering filters then top_k * 5 else top_k) (length (ids_of chunks)))
        ≡ ok hits
      → All (IsPosition (length chunks)) hits
      → search lib (built lib json chunks model index s) query_vector top_k filters
        ≡ ok (take top_k (expected chunks filters hits))
  unfolding search built
  search-built [] model index s query_vector top_k filters hits d one e h =
      rw (expected_none filters hits) (sym (ap ok (take_none top_k)))
  search-built (c ∷ cs) model index s query_vector top_k filters hits d one e h =
      let filled : (length (ids_of (c ∷ cs)) == 0) ≡ false = ground arith in
      rw (filled, search)
        (rw (e, search)
          (collect-expected lib json (c ∷ cs) d model index s filters top_k hits one h))

  -- Searching the store that a build left is searching the chunks: when the index answers with
  -- positions of its vectors, the result is the chunks at these positions, in the order of the index,
  -- that the filters allow, the first `top_k` of them. The ids of the chunks are distinct, as the
  -- primary key of the table makes them, and `top_k` is 1 or more.
  pub search-build :
      (chunks : List StoredChunk) (model : Text) (s : FaissStore Index) (d : Disk MapText) {n : ℕ}
      {s' : FaissStore Index} {d' : Disk MapText} {index : Index} (query_vector : List Float)
      (top_k : ℕ) (filters : Option SearchFilters) (hits : List (Float × Option ℕ))
      → build lib json chunks model (s, d) ≡ (ok n, (s', d'))
      → Distinct (ids_of chunks)
      → 1 ≤ top_k
      → s'.index ≡ some index
      → lib.index_search index query_vector
          (min (if is_filtering filters then top_k * 5 else top_k) (store_size s'))
        ≡ ok hits
      → All (IsPosition (length chunks)) hits
      → search lib s' query_vector top_k filters ≡ ok (take top_k (expected chunks filters hits))
  unfolding built
  search-build chunks model s d {s' = s'} {index = index} query_vector top_k filters hits b
        distinct_ one i e h =
      let (held, store, _, _) = build-eq-ok lib json chunks model s d b in
      let same : some index ≡ some held = sym i ∙ cc store in
      let answer =
        subst
          (λ (u : FaissStore Index).
            lib.index_search index query_vector
              (min (if is_filtering filters then top_k * 5 else top_k) (store_size u))
            ≡ ok hits)
          store e in
      let answer' =
        subst
          (λ (j : Index).
            lib.index_search j query_vector
              (min (if is_filtering filters then top_k * 5 else top_k) (length (ids_of chunks)))
            ≡ ok hits)
          (cc same) answer in
      let k =
        search-built chunks model held s query_vector top_k filters hits distinct_ one answer' h in
      cc (store, k)
