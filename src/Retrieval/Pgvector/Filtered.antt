-- ===== src/Retrieval/Pgvector/Filtered.antt =====
-- Which rows the two searches of the database can give.
use grounded_ops_agent.Ingestion.Indexer.{ChunkRow, Table}
use grounded_ops_agent.Prelude.{
  ℕ, zero, suc, ◌≤◌, ◌≡◌, refl, sym, ◌∙◌, Bool, true, false, not, ◌&&◌, Option, none, some, List,
  [], ◌∷◌, map, arith, if◌then◌else◌, length, take, all, keep_if, counted, keep_if_all, keep_if-ext,
  keep_if-keep_if, all-keep_if, all-take, all-same, All, Text, nat_eq, text_eq, contains,
}
use grounded_ops_agent.Prelude.Float.{Float, FloatOps}
use grounded_ops_agent.Retrieval.Pgvector.{
  Postgres, where_in, apply_filters, row_chunk, pg_search, keyword_search,
}
use grounded_ops_agent.Retrieval.Types.{SearchFilters, member_or_any, allows, IsAllowed}

taken_le {ℓ κ} :
    {A : Type ℓ} {B : Type κ} (f : A → B) (n : ℕ) (xs : List A) → length (map f (take n xs)) ≤ n
taken_le f zero xs = omega arith
taken_le f (suc n) [] = omega arith
taken_le f (suc n) (x ∷ xs) = omega (arith, taken_le f n xs)

-- The rows of a query come in some order, each as often as in the table.
pub record KeepsRows (pg : Postgres) : Type 0 where
  pub scan : (p : ChunkRow → Bool) (t : Table) → counted p (pg.scan t) ≡ counted p t
  pub order_by :
      (f : ChunkRow → Float) (p : ChunkRow → Bool) (t : Table)
      → counted p (pg.order_by f t) ≡ counted p t
  pub order_by_desc :
      (f : ChunkRow → Float) (p : ChunkRow → Bool) (t : Table)
      → counted p (pg.order_by_desc f t) ≡ counted p t

-- The `WHERE` clauses are the predicate `SearchFilters.allows`.
pub apply_filters-allows :
    (f : SearchFilters) (t : Table)
    → apply_filters (some f) t ≡ keep_if (λ row. allows f row.source_type row.doc_id) t
unfolding apply_filters where_in allows member_or_any
apply_filters-allows f t = filtered f.source_types f.doc_ids t
  where
    both : Option (List Text) → Option (List Text) → ChunkRow → Bool
    both kinds docs row =
        if not (member_or_any kinds row.source_type) then false else member_or_any docs row.doc_id

    filtered :
        (kinds docs : Option (List Text)) (t : Table)
        → where_in (λ row. row.doc_id) docs (where_in (λ row. row.source_type) kinds t)
          ≡ keep_if (both kinds docs) t
    filtered none none t = sym (keep_if_all t)
    filtered none (some docs) t = refl
    filtered (some kinds) none t =
        keep_if-ext (λ row. contains kinds row.source_type) (both (some kinds) none) t
          (λ row. ground arith)
    filtered (some kinds) (some docs) t =
        keep_if-keep_if (λ row. contains docs row.doc_id) (λ row. contains kinds row.source_type) t
        ∙ keep_if-ext (λ row. contains kinds row.source_type && contains docs row.doc_id)
            (both (some kinds) (some docs)) t (λ row. ground arith)

-- The filters let the row through.
abbrev row_passes : Option SearchFilters → ChunkRow → Bool
row_passes none row = true
row_passes (some f) row = allows f row.source_type row.doc_id

apply_filters_passes :
    (filters : Option SearchFilters) (t : Table)
    → all (row_passes filters) (apply_filters filters t) ≡ true
unfolding apply_filters
apply_filters_passes none t = all_true t
  where
    all_true : (t : Table) → all (row_passes none) t ≡ true
    all_true [] = refl
    all_true (row ∷ t) = all_true t
apply_filters_passes (some f) t = rw (apply_filters-allows f t) (all-keep_if _ t)

row-IsAllowed :
    (retriever : Text) (score : ChunkRow → Float) (filters : Option SearchFilters) (row : ChunkRow)
    → row_passes filters row ≡ true
    → IsAllowed filters (row_chunk retriever score row)
unfolding row_chunk
row-IsAllowed retriever score none row h = tt
row-IsAllowed retriever score (some f) row h = h

rows-IsAllowed :
    (retriever : Text) (score : ChunkRow → Float) (filters : Option SearchFilters) (rows : Table)
    → all (row_passes filters) rows ≡ true
    → All (IsAllowed filters) (map (row_chunk retriever score) rows)
rows-IsAllowed retriever score filters [] h = tt
rows-IsAllowed retriever score filters (row ∷ rows) h = (
  row-IsAllowed retriever score filters row (ground arith),
  rows-IsAllowed retriever score filters rows (ground arith),
)

module _ (floats : FloatOps) (pg : Postgres) (keeps : KeepsRows pg) (chunks : Table) where
  -- What a dense search in the database gives the filters allow, and it is `top_k` rows at most.
  pub pg_search-IsAllowed :
      (query_vector : List Float) (top_k : ℕ) (filters : Option SearchFilters)
      → All (IsAllowed filters) (pg_search floats pg chunks query_vector top_k filters)
        × (length (pg_search floats pg chunks query_vector top_k filters) ≤ top_k)
  unfolding pg_search
  pg_search-IsAllowed query_vector top_k filters =
      let distance = λ (row : ChunkRow). pg.cosine_distance row.embedding query_vector in
      let rows = apply_filters filters chunks in
      (
        rows-IsAllowed _ _ filters (take top_k (pg.order_by distance rows)) (
            all-take (row_passes filters) top_k (pg.order_by distance rows) (
              all-same (row_passes filters) (pg.order_by distance rows) rows
                (λ q. keeps.order_by distance q rows) (apply_filters_passes filters chunks))),
        taken_le _ top_k (pg.order_by distance rows),
      )

  -- The same of the search by keyword.
  pub keyword_search-IsAllowed :
      (query : Text) (top_k : ℕ) (filters : Option SearchFilters)
      → All (IsAllowed filters) (keyword_search floats pg chunks query top_k filters)
        × (length (keyword_search floats pg chunks query top_k filters) ≤ top_k)
  unfolding keyword_search
  keyword_search-IsAllowed query top_k filters =
      let rank = λ (row : ChunkRow). pg.ts_rank row.content query in
      let matching = keep_if (λ (row : ChunkRow). pg.matches row.content query) chunks in
      let rows = apply_filters filters matching in
      (
        rows-IsAllowed _ _ filters (take top_k (pg.order_by_desc rank rows)) (
            all-take (row_passes filters) top_k (pg.order_by_desc rank rows) (
              all-same (row_passes filters) (pg.order_by_desc rank rows) rows
                (λ q. keeps.order_by_desc rank q rows) (apply_filters_passes filters matching))),
        taken_le _ top_k (pg.order_by_desc rank rows),
      )
