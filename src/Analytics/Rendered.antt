-- ===== src/Analytics/Rendered.antt =====
-- The SQL text does not depend on the values.
use mathlib.Core.List.{append-nil, append_assoc}
use grounded_ops_agent.Core.Errors.{◌>>=◌}
use grounded_ops_agent.Analytics.{
  max_group_by, max_filters, Query, Clauses, is_given, or_empty, agg_expr, filter_clauses,
  aggregate_sql, parse_dt, bound_clause, time_bounds, timed, time_clause, aggregate_query,
}
use grounded_ops_agent.Core.Errors.{Result, ok, raise, >>=-eq-ok}
use grounded_ops_agent.Core.Settings.{check}
use grounded_ops_agent.Llm.Types.{Json}
use grounded_ops_agent.Prelude.{
  ℕ, suc, ◌≡◌, refl, sym, ap, ◌∙◌, Bool, Option, none, some, List, [], ◌∷◌, ◌++◌, ltb,
  if◌then◌else◌, length, Text, nat_eq, text_eq,
}
use grounded_ops_agent.Prelude.Dict.{keys}
use grounded_ops_agent.Security.Whitelist.{
  TablePolicy, policy, validate_agg, validate_group_by, validate_filter_keys,
}
use grounded_ops_agent.Text.Chars.{codes}
use grounded_ops_agent.Text.Decimal.{decimal}

-- The WHERE list as a function of the filter columns, numbered from `i`.
unfoldable pub filter_columns_from : ℕ → List Text → List Text
filter_columns_from i [] = []
filter_columns_from i (key ∷ ks) =
    (key ++ codes " = :v" ++ decimal i) ∷ filter_columns_from (suc i) ks

filter_clauses-columns :
    (D : Type 0) (i : ℕ) (filters : List (Text × Json))
    → (filter_clauses {D = D} i filters).0 ≡ filter_columns_from i (keys filters)
unfolding filter_clauses filter_columns_from
filter_clauses-columns D i [] = refl
filter_clauses-columns D i ((key, v) ∷ filters) =
    ap (λ r. (key ++ codes " = :v" ++ decimal i) ∷ r) (filter_clauses-columns D (suc i) filters)

-- The clauses of the time interval, as a function of which of its ends are given.
abbrev pub time_columns : Bool → Bool → Text → List Text
time_columns start until column =
    (if start then (column ++ codes " >= :start") ∷ [] else [])
    ++ (if until then (column ++ codes " <= :end") ∷ [] else [])

abbrev ok_or : {A : Type 0} → A → Result A → A
ok_or d (ok a) = a
ok_or d (raise e) = d

module _ {D : Type 0} (fromisoformat : Text → Option D) where
  bound_clause-columns :
      (clause name : Text) (v : Option Text) (c : Clauses D) {out : Clauses D}
      → bound_clause fromisoformat clause name v c ≡ ok out
      → out.0 ≡ c.0 ++ (if is_given v then clause ∷ [] else [])
  unfolding bound_clause
  bound_clause-columns clause name none (w, params) h =
      let k = ap (ok_or (w, params)) h in sym (ap (λ (x : Clauses D). x.0) k) ∙ sym (append-nil w)
  bound_clause-columns clause name (some v) (w, params) h =
      let (d, _, k) = >>=-eq-ok (parse_dt fromisoformat v) _ h in
      sym (ap (λ (x : Clauses D). x.0) (ap (ok_or (w, params)) k))

  timed-columns :
      (table : Text) (column start until : Option Text) (c : Clauses D) {out : Clauses D}
      → timed fromisoformat table column start until c ≡ ok out
      → out.0 ≡ c.0 ++ time_columns (is_given start) (is_given until) (or_empty column)
  unfolding timed time_bounds
  timed-columns table none start until c h = cc
  timed-columns table (some column) start until c h =
      let (c', first, k) =
        >>=-eq-ok
          (bound_clause fromisoformat (column ++ codes " >= :start") (codes "start") start c) _ h in
      let a = bound_clause-columns (column ++ codes " >= :start") (codes "start") start c first in
      let b = bound_clause-columns (column ++ codes " <= :end") (codes "end") until c' k in
      b
      ∙ ap (λ x. x ++ (if is_given until then (column ++ codes " <= :end") ∷ [] else [])) a
      ∙ append_assoc c.0 _ _

  given-columns :
      (table : Text) (start until : Option Text) (c : Clauses D) (p : TablePolicy) {out : Clauses D}
      → policy table ≡ ok p
      → (do p ← policy table; timed fromisoformat table p.time_column start until c) ≡ ok out
      → out.0 ≡ c.0 ++ time_columns (is_given start) (is_given until) (or_empty p.time_column)
  given-columns table start until c p found h =
      timed-columns table p.time_column start until c (rw found at h)

  time_clause-columns :
      (table : Text) (start until : Option Text) (c : Clauses D) (p : TablePolicy) {out : Clauses D}
      → policy table ≡ ok p
      → time_clause fromisoformat table start until c ≡ ok out
      → out.0 ≡ c.0 ++ time_columns (is_given start) (is_given until) (or_empty p.time_column)
  unfolding time_clause
  time_clause-columns table none none c p found h =
      sym (ap (λ (x : Clauses D). x.0) (ap (ok_or c) h)) ∙ sym (append-nil c.0)
  time_clause-columns table (some a) none c p found h =
      given-columns table (some a) none c p found h
  time_clause-columns table none (some b) c p found h =
      given-columns table none (some b) c p found h
  time_clause-columns table (some a) (some b) c p found h =
      given-columns table (some a) (some b) c p found h

  -- The text from the identifiers alone.
  pub query-sql :
      (table : Text) (group_by : List Text) (agg_fn : Text) (column : Option Text)
      (filters : List (Text × Json)) (start until : Option Text) (max_rows : ℕ) (q : Query D)
      → aggregate_query fromisoformat table group_by agg_fn column filters start until max_rows
        ≡ ok q
      → (p : TablePolicy) × (policy table ≡ ok p)
        × (expr : Text) × (agg_expr table agg_fn column ≡ ok expr)
        × (q.sql
            ≡ aggregate_sql table group_by expr
                (filter_columns_from 0 (keys filters)
                  ++ time_columns (is_given start) (is_given until) (or_empty p.time_column))
                max_rows)
  unfolding aggregate_query
  query-sql table group_by agg_fn column filters start until max_rows q h =
      let (_, _, h1) = >>=-eq-ok (check (ltb max_group_by (length group_by)) _) _ h in
      let (_, _, h2) = >>=-eq-ok (check (ltb max_filters (length filters)) _) _ h1 in
      let (p, found, h3) = >>=-eq-ok (policy table) _ h2 in
      let (_, _, h4) = >>=-eq-ok (validate_agg agg_fn) _ h3 in
      let (_, _, h5) = >>=-eq-ok (validate_group_by table group_by) _ h4 in
      let (_, _, h6) = >>=-eq-ok (validate_filter_keys table (keys filters)) _ h5 in
      let (expr, aggregated, h7) = >>=-eq-ok (agg_expr table agg_fn column) _ h6 in
      let (c, timed_, h8) =
        >>=-eq-ok (time_clause fromisoformat table start until (filter_clauses 0 filters)) _ h7 in
      let where_ =
        time_clause-columns table start until (filter_clauses 0 filters) p found timed_ in
      let columns =
        ap (λ x. x ++ time_columns (is_given start) (is_given until) (or_empty p.time_column))
          (filter_clauses-columns D 0 filters) in
      (
        p,
        found,
        expr,
        aggregated,
        sym (ap (λ (x : Query D). x.sql) (ap (ok_or q) h8))
            ∙ ap (λ x. aggregate_sql table group_by expr x max_rows) (where_ ∙ columns),
      )

  -- Values are never part of the SQL text of `run_aggregate`: two requests with the same table,
  -- group-by columns, aggregate, column, filter columns and row cap, which give the same ends of the
  -- time interval, have the same text, whatever the values of the filters and the times are.
  pub aggregate_query-sql :
      (table : Text) (group_by : List Text) (agg_fn : Text) (column : Option Text)
      (filters filters' : List (Text × Json)) (start start' until until' : Option Text)
      (max_rows : ℕ) (q q' : Query D)
      → keys filters ≡ keys filters'
      → is_given start ≡ is_given start'
      → is_given until ≡ is_given until'
      → aggregate_query fromisoformat table group_by agg_fn column filters start until max_rows
        ≡ ok q
      → aggregate_query fromisoformat table group_by agg_fn column filters' start' until' max_rows
        ≡ ok q'
      → q.sql ≡ q'.sql
  aggregate_query-sql table group_by agg_fn column filters filters' start start' until until'
        max_rows q q' ks s u h h' =
      let (p, found, expr, e, sql) =
        query-sql table group_by agg_fn column filters start until max_rows q h in
      let (p', found', expr', e', sql') =
        query-sql table group_by agg_fn column filters' start' until' max_rows q' h' in
      let same_p : p ≡ p' = cc (found, found') in
      let same_e : expr ≡ expr' = cc (e, e') in cc (sql, sql', same_p, same_e, ks, s, u)
