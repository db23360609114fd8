-- ===== src/Analytics/Statement.antt =====
-- The texts of the queries, each as a single statement.
use grounded_ops_agent.Analytics.{
  Clauses, or_empty, show_option, agg_expr, section, aggregate_sql, metric_sql, text_clause,
}
use grounded_ops_agent.Analytics.Plain.{
  is_plain, plain-append, plain-decimal, plain-join, all-append_plain, policy-plain, plain-section,
}
use grounded_ops_agent.Analytics.Whitelisted.{agg_expr-ok}
use grounded_ops_agent.Core.Errors.{Result, ok, raise, >>=-eq-ok}
use grounded_ops_agent.Prelude.{
  ℕ, ◌≡◌, refl, subst, inl, inr, true, Option, none, some, List, [], ◌∷◌, ◌++◌, arith, Bool-cases,
  take, all, ◌==◌, Text, nat_eq, text_eq, contains, all-contains,
}
use grounded_ops_agent.Security.Whitelist.{
  allowed_granularity, TablePolicy, policy, validate_numeric_column, validate_granularity,
}
use grounded_ops_agent.Text.Chars.{codes}
use grounded_ops_agent.Text.Decimal.{decimal}
use grounded_ops_agent.Text.Words.{join}

abbrev text_or : Result Text → Text
text_or (ok t) = t
text_or (raise e) = []

show_option-plain :
    (cols : List Text) (column : Option Text)
    → all is_plain cols ≡ true
    → contains cols (or_empty column) ≡ true
    → is_plain (show_option column) ≡ true
show_option-plain cols none h m = refl
show_option-plain cols (some c) h m = all-contains is_plain cols c h m

pub agg_expr-plain :
    (table agg_fn : Text) (column : Option Text) (p : TablePolicy) {expr : Text}
    → policy table ≡ ok p
    → is_plain agg_fn ≡ true
    → agg_expr table agg_fn column ≡ ok expr
    → is_plain expr ≡ true
unfolding agg_expr
agg_expr-plain table agg_fn column p found hf made = elim (Bool-cases (agg_fn == codes "count")) [
  | inl e ↦
      let made' = rw (e, agg_expr) at made in
      subst (λ (r : Result Text). is_plain (text_or r) ≡ true) made' refl
  | inr e ↦
      let p_plain = policy-plain table found in
      let shown : is_plain (show_option column) ≡ true =
        show_option-plain p.numeric_columns column (ground arith)
          (agg_expr-ok table agg_fn column p found made e) in
      let made' = rw (e, agg_expr) at made in
      let (c, valid, out) =
        >>=-eq-ok (validate_numeric_column table (or_empty column))
          (λ c. ok (agg_fn ++ codes "(" ++ show_option column ++ codes ")")) made' in
      subst (λ (r : Result Text). is_plain (text_or r) ≡ true) out
        (plain-append (agg_fn ++ codes "(" ++ show_option column) (codes ")")
          (plain-append (agg_fn ++ codes "(") (show_option column)
            (plain-append agg_fn (codes "(") hf refl) shown)
          refl)
]

-- A single `SELECT`.
abbrev pub IsOneStatement : Text → Type 0
IsOneStatement sql = (take 7 sql ≡ codes "SELECT ") × (is_plain sql ≡ true)

pub aggregate_sql-IsOneStatement :
    (table : Text) (group_by : List Text) (expr : Text) (where_ : List Text) (max_rows : ℕ)
    → is_plain table ≡ true
    → all is_plain group_by ≡ true
    → is_plain expr ≡ true
    → all is_plain where_ ≡ true
    → IsOneStatement (aggregate_sql table group_by expr where_ max_rows)
unfolding aggregate_sql
aggregate_sql-IsOneStatement table group_by expr where_ max_rows ht hg he hw =
    let named = expr ++ codes " AS agg_value" in
    let select_list = join (codes ", ") (group_by ++ named ∷ []) in
    let named_plain : is_plain named ≡ true = plain-append expr (codes " AS agg_value") he refl in
    let select_plain =
      plain-join (codes ", ") (group_by ++ named ∷ []) refl
        (all-append_plain group_by (named ∷ []) hg (ground arith)) in
    let conditions = section (codes " WHERE ") (codes " AND ") where_ in
    let groups = section (codes " GROUP BY ") (codes ", ") group_by in
    let last = codes " ORDER BY agg_value DESC NULLS LAST LIMIT " in
    let s1 = codes "SELECT " ++ select_list in
    let s2 = s1 ++ codes " FROM " in
    let s3 = s2 ++ table in
    let s4 = s3 ++ conditions in
    let s5 = s4 ++ groups in
    (
      refl,
      plain-append (s5 ++ last) (decimal max_rows)
          (plain-append s5 last
            (plain-append s4 groups
              (plain-append s3 conditions
                (plain-append s2 table
                  (plain-append s1 (codes " FROM ")
                    (plain-append (codes "SELECT ") select_list refl select_plain) refl)
                  ht)
                (plain-section (codes " WHERE ") (codes " AND ") where_ refl refl hw))
              (plain-section (codes " GROUP BY ") (codes ", ") group_by refl refl hg))
            refl)
          (plain-decimal max_rows),
    )

module _ {D : Type 0} (iso : Text → Option D) where
  pub text_clause-plain :
      (clause name : Text) (v : Option Text) (c : Clauses D)
      → is_plain clause ≡ true
      → all is_plain c.0 ≡ true
      → all is_plain (text_clause iso clause name v c).0 ≡ true
  unfolding text_clause
  text_clause-plain clause name none c hc h = h
  text_clause-plain clause name (some v) (where_, params) hc h =
      all-append_plain where_ (clause ∷ []) h (ground arith)

  pub metric_sql-IsOneStatement :
      (metric clause : Text)
      → is_plain clause ≡ true
      → IsOneStatement (metric_sql iso metric clause)
  metric_sql-IsOneStatement metric clause h =
      elim (Bool-cases (metric == codes "avg_resolution_minutes")) [
        | inl e ↦ rw e (refl, h)
        | inr e ↦ rw e (elim (Bool-cases (metric == codes "p50_resolution_minutes")) [
          | inl e2 ↦ rw e2 (refl, h)
          | inr e2 ↦ rw e2 (elim (Bool-cases (metric == codes "unresolved_count")) [
            | inl e3 ↦ rw e3 (refl, h)
            | inr e3 ↦ rw e3 (refl, h)
          ])
        ])
      ]

pub granularity-plain :
    (granularity : Text) {out : Text}
    → validate_granularity granularity ≡ ok out
    → is_plain granularity ≡ true
unfolding validate_granularity
granularity-plain granularity valid = elim (Bool-cases (contains allowed_granularity granularity)) [
  | inl e ↦ all-contains is_plain allowed_granularity granularity refl e
  | inr e ↦ let k = rw (e, validate_granularity) at valid in cc k
]

pub series_sql-IsOneStatement :
    (granularity clause : Text) (max_rows : ℕ)
    → is_plain granularity ≡ true
    → is_plain clause ≡ true
    → IsOneStatement (
        codes "SELECT date_trunc('"
        ++ granularity
        ++ codes "', date) AS bucket, avg(value) AS value FROM metrics_daily WHERE "
        ++ clause
        ++ codes " GROUP BY bucket ORDER BY bucket LIMIT "
        ++ decimal max_rows)
series_sql-IsOneStatement granularity clause max_rows hg hc =
    let s1 = codes "SELECT date_trunc('" ++ granularity in
    let middle = codes "', date) AS bucket, avg(value) AS value FROM metrics_daily WHERE " in
    let last = codes " GROUP BY bucket ORDER BY bucket LIMIT " in
    (
      refl,
      plain-append (s1 ++ middle ++ clause ++ last) (decimal max_rows)
          (plain-append (s1 ++ middle ++ clause) last
            (plain-append (s1 ++ middle) clause
              (plain-append s1 middle
                (plain-append (codes "SELECT date_trunc('") granularity refl hg) refl)
              hc)
            refl)
          (plain-decimal max_rows),
    )
