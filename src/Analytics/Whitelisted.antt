-- ===== src/Analytics/Whitelisted.antt =====
-- What the validation lets through to the SQL text.
use grounded_ops_agent.Prelude.Equality.{text_beq}
use grounded_ops_agent.Analytics.{
  max_group_by, max_filters, Query, is_given, or_empty, show_option, agg_expr, section,
  aggregate_sql, aggregate_query,
}
use grounded_ops_agent.Analytics.Plain.{policy-all}
use grounded_ops_agent.Analytics.Rendered.{filter_columns_from, time_columns, query-sql}
use grounded_ops_agent.Core.Errors.{Error, Result, ok, raise, >>=-eq-ok}
use grounded_ops_agent.Core.Settings.{check, check-ok}
use grounded_ops_agent.Llm.Types.{Json}
use grounded_ops_agent.Prelude.{
  ℕ, ◌≤◌, ◌≡◌, refl, sym, ap, ◌∙◌, ◌⊎◌, inl, inr, Bool, true, false, not, Option, none, some, List,
  [], ◌∷◌, ◌++◌, arith, ltb, if◌then◌else◌, Bool-cases, length, all, ◌==◌, Text, nat_eq, text_eq,
  contains,
}
use grounded_ops_agent.Prelude.Dict.{keys}
use grounded_ops_agent.Security.Whitelist.{
  allowed_agg, TablePolicy, allowed, policy, validate_agg, check_columns, validate_group_by,
  validate_filter_keys, validate_numeric_column,
}
use grounded_ops_agent.Text.Chars.{codes}
use grounded_ops_agent.Text.Decimal.{decimal}
use grounded_ops_agent.Text.Words.{join}

-- The identifiers of a request are ones that the whitelist names for its table.
pub record IsChecked (table : Text) (group_by : List Text) (agg_fn : Text) (column : Option Text)
    (filter_keys : List Text) : Type 0 where
  pub table_policy : TablePolicy
  pub listed : policy table ≡ ok table_policy
  pub aggregate : contains allowed_agg agg_fn ≡ true
  pub grouped : all (contains table_policy.group_by) group_by ≡ true
  pub filtered : all (contains table_policy.filter_columns) filter_keys ≡ true
  pub numeric :
      (agg_fn == codes "count") ≡ false
      → contains table_policy.numeric_columns (or_empty column) ≡ true

validate_agg-ok :
    (agg_fn : Text) {a : Text} → validate_agg agg_fn ≡ ok a → contains allowed_agg agg_fn ≡ true
unfolding validate_agg
validate_agg-ok agg_fn h = elim (Bool-cases (contains allowed_agg agg_fn)) [
  | inl e ↦ e
  | inr e ↦ let k = rw (e, validate_agg) at h in cc k
]

check_columns-ok :
    (allowed_columns : List Text) (b a : Text) (columns : List Text) {out : List Text}
    → check_columns allowed_columns b a columns ≡ ok out
    → all (contains allowed_columns) columns ≡ true
unfolding check_columns
check_columns-ok allowed_columns b a [] h = refl
check_columns-ok allowed_columns b a (c ∷ columns) h =
    elim (Bool-cases (contains allowed_columns c)) [
      | inl e ↦
          let k = rw (e, check_columns) at h in
          let (out, rest, _) = >>=-eq-ok _ _ k in
          rw e (check_columns-ok allowed_columns b a columns rest)
      | inr e ↦ let k = rw (e, check_columns) at h in cc k
    ]

at_most : (m n : ℕ) → ltb m n ≡ false → n ≤ m
at_most m n h = ground arith

numeric-ok :
    (cols : List Text) (c : Text) (x : Error) {out : Text}
    → (if contains cols c then ok c else raise x) ≡ ok out
    → contains cols c ≡ true
numeric-ok cols c x h = elim (Bool-cases (contains cols c)) [
  | inl e ↦ e
  | inr e ↦ let k = rw e at h in cc k
]

pub agg_expr-ok :
    (table agg_fn : Text) (column : Option Text) (p : TablePolicy) {expr : Text}
    → policy table ≡ ok p
    → agg_expr table agg_fn column ≡ ok expr
    → (agg_fn == codes "count") ≡ false
    → contains p.numeric_columns (or_empty column) ≡ true
unfolding agg_expr validate_numeric_column
agg_expr-ok table agg_fn column p found h other =
    let k = rw (other, agg_expr) at h in
    let (c, valid, _) = >>=-eq-ok (validate_numeric_column table (or_empty column)) _ k in
    let valid' = rw (found, validate_numeric_column) at valid in
    numeric-ok p.numeric_columns (or_empty column) _ valid'

-- Where `run_aggregate` gets as far as the database, the validation has passed.
pub aggregate_query-IsChecked :
    {D : Type 0} (fromisoformat : Text → Option D) (table : Text) (group_by : List Text)
    (agg_fn : Text) (column : Option Text) (filters : List (Text × Json)) (start end : Option Text)
    (max_rows : ℕ) (q : Query D)
    → aggregate_query fromisoformat table group_by agg_fn column filters start end max_rows ≡ ok q
    → IsChecked table group_by agg_fn column (keys filters)
      × (length group_by ≤ max_group_by)
      × (length filters ≤ max_filters)
unfolding aggregate_query validate_group_by validate_filter_keys
aggregate_query-IsChecked iso table group_by agg_fn column filters start end max_rows q h =
    let (_, few, h1) = >>=-eq-ok (check (ltb max_group_by (length group_by)) _) _ h in
    let (_, few', h2) = >>=-eq-ok (check (ltb max_filters (length filters)) _) _ h1 in
    let (p, found, h3) = >>=-eq-ok (policy table) _ h2 in
    let (_, agg, h4) = >>=-eq-ok (validate_agg agg_fn) _ h3 in
    let (_, groups, h5) = >>=-eq-ok (validate_group_by table group_by) _ h4 in
    let (_, filtered, h6) = >>=-eq-ok (validate_filter_keys table (keys filters)) _ h5 in
    let (expr, aggregated, h7) = >>=-eq-ok (agg_expr table agg_fn column) _ h6 in
    let groups' = rw (found, validate_group_by) at groups in
    let filtered' = rw (found, validate_filter_keys) at filtered in
    (
      record {
        table_policy = p;
        listed = found;
        aggregate = validate_agg-ok agg_fn agg;
        grouped = check_columns-ok p.group_by _ _ group_by groups';
        filtered = check_columns-ok p.filter_columns _ _ (keys filters) filtered';
        numeric = agg_expr-ok table agg_fn column p found aggregated;
      },
      at_most max_group_by (length group_by) (check-ok _ _ few),
      at_most max_filters (length filters) (check-ok _ _ few'),
    )

-- The aggregated expression: `count(*)`, or an allowed function of a numeric column of the table.
abbrev pub IsExpression : TablePolicy → (agg_fn : Text) → (column : Option Text) → Text → Type 0
IsExpression p agg_fn column expr =
    ((agg_fn ≡ codes "count") × (expr ≡ codes "count(*)"))
    ⊎ ((c : Text) × (column ≡ some c)
        × (contains p.numeric_columns c ≡ true)
        × (expr ≡ agg_fn ++ codes "(" ++ c ++ codes ")"))

-- The SQL text is made of whitelisted identifiers and fixed words: `clauses` are the comparisons of
-- the filter columns and of the ends of the time interval.
pub record IsWhitelisted (table : Text) (group_by : List Text) (agg_fn : Text)
    (column : Option Text) (filter_keys : List Text) (start until : Bool) (max_rows : ℕ)
    (sql : Text) : Type 0 where
  pub checked : IsChecked table group_by agg_fn column filter_keys
  pub expression : Text
  pub is_expression : IsExpression checked.table_policy agg_fn column expression
  pub text :
      let clauses =
        filter_columns_from 0 filter_keys
        ++ time_columns start until (or_empty checked.table_policy.time_column) in
      sql
      ≡ codes "SELECT "
        ++ join (codes ", ") (group_by ++ (expression ++ codes " AS agg_value") ∷ [])
        ++ codes " FROM "
        ++ table
        ++ section (codes " WHERE ") (codes " AND ") clauses
        ++ section (codes " GROUP BY ") (codes ", ") group_by
        ++ codes " ORDER BY agg_value DESC NULLS LAST LIMIT "
        ++ decimal max_rows

abbrev no_empty_column : Text → TablePolicy → Bool
no_empty_column table p = not (contains p.numeric_columns [])

whitelist_no_empty_column :
    all (λ (kv : Text × TablePolicy). no_empty_column kv.0 kv.1) allowed ≡ true
unfolding allowed text_beq
whitelist_no_empty_column = refl

abbrev text_or_empty : Result Text → Text
text_or_empty (ok t) = t
text_or_empty (raise e) = []

column-IsExpression :
    (table agg_fn : Text) (column : Option Text) (p : TablePolicy) (expr : Text)
    → policy table ≡ ok p
    → contains p.numeric_columns (or_empty column) ≡ true
    → expr ≡ agg_fn ++ codes "(" ++ show_option column ++ codes ")"
    → IsExpression p agg_fn column expr
column-IsExpression table agg_fn none p expr found listed e =
    let none_empty = policy-all no_empty_column table whitelist_no_empty_column found in
    absurd (true_not_false listed (ground arith))
  where
    true_not_false : {b : Bool} → b ≡ true → b ≡ false → ⊥
    true_not_false h k = cc
column-IsExpression table agg_fn (some c) p expr found listed e = inr (c, refl, listed, e)

agg_expr-IsExpression :
    (table agg_fn : Text) (column : Option Text) (p : TablePolicy) (expr : Text)
    → policy table ≡ ok p
    → agg_expr table agg_fn column ≡ ok expr
    → IsExpression p agg_fn column expr
unfolding agg_expr
agg_expr-IsExpression table agg_fn column p expr found h =
    elim (Bool-cases (agg_fn == codes "count")) [
      | inl e ↦
          let k = rw (e, agg_expr) at h in
          inl ((text_eq.beq_iff agg_fn (codes "count")).0 e, ap text_or_empty (sym k))
      | inr e ↦
          let listed = agg_expr-ok table agg_fn column p found h e in
          let k = rw (e, agg_expr) at h in
          let (c, _, out) =
            >>=-eq-ok (validate_numeric_column table (or_empty column))
              (λ c. ok (agg_fn ++ codes "(" ++ show_option column ++ codes ")")) k in
          column-IsExpression table agg_fn column p expr found listed (ap text_or_empty (sym out))
    ]

-- Where `run_aggregate` gets as far as the database, its SQL text is made of fixed words and of
-- whitelisted identifiers: the table, the group-by columns, the filter columns, the time column and the
-- aggregate, which is `count(*)` or an allowed function of a numeric column of the table. There are at
-- most 3 group-by columns and 8 filters.
pub aggregate_query-IsWhitelisted :
    {D : Type 0} (fromisoformat : Text → Option D) (table : Text) (group_by : List Text)
    (agg_fn : Text) (column : Option Text) (filters : List (Text × Json)) (start end : Option Text)
    (max_rows : ℕ) (q : Query D)
    → aggregate_query fromisoformat table group_by agg_fn column filters start end max_rows ≡ ok q
    → IsWhitelisted table group_by agg_fn column
        (keys filters)
        (is_given start)
        (is_given end)
        max_rows
        q.sql
      × (length group_by ≤ max_group_by)
      × (length filters ≤ max_filters)
unfolding aggregate_sql
aggregate_query-IsWhitelisted iso table group_by agg_fn column filters start end max_rows q h =
    let (checked, few, few') =
      aggregate_query-IsChecked iso table group_by agg_fn column filters start end max_rows q h in
    let (p, found, expr, e, sql) =
      query-sql iso table group_by agg_fn column filters start end max_rows q h in
    let same : p ≡ checked.table_policy = cc (found, checked.listed) in
    (
      record {
        checked = checked;
        expression = expr;
        is_expression =
            agg_expr-IsExpression table agg_fn column checked.table_policy expr checked.listed e;
        text =
            sql
            ∙ ap
                (λ (x : TablePolicy).
                  aggregate_sql table group_by expr
                    (filter_columns_from 0 (keys filters)
                      ++ time_columns (is_given start) (is_given end) (or_empty x.time_column))
                    max_rows)
                same;
      },
      few,
      few',
    )
