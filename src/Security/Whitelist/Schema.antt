-- ===== src/Security/Whitelist/Schema.antt =====
-- `schema` of src/app/security/whitelist.py, which `list_schema` gives to the model, against the
-- validators.
use grounded_ops_agent.Core.Errors.{Error, Result, ok, raise}
use grounded_ops_agent.Prelude.{
  ◌≡◌, refl, sym, ap, ◌∙◌, inl, inr, Bool, true, false, ◌||◌, Option, some, List, [], ◌∷◌, arith,
  if◌then◌else◌, Bool-cases, ◌==◌, Text, nat_eq, text_eq, contains,
}
use grounded_ops_agent.Prelude.Dict.{lookup}
use grounded_ops_agent.Security.Whitelist.{
  allowed_agg, allowed_granularity, TablePolicy, allowed, policy, check_columns, validate_group_by,
  validate_filter_keys, validate_numeric_column,
}
use grounded_ops_agent.Text.Order.{text_leb}

-- `sorted` of texts.
unfoldable pub insert_text : Text → List Text → List Text
unfolding text_leb
insert_text x [] = x ∷ []
insert_text x (y ∷ ys) = if text_leb x y then x ∷ y ∷ ys else y ∷ insert_text x ys

unfoldable pub sort_texts : List Text → List Text
unfolding insert_text
sort_texts [] = []
sort_texts (x ∷ xs) = insert_text x (sort_texts xs)

pub record TableSchema : Type 0 where
  pub columns : List Text
  pub group_by_columns : List Text
  pub filter_columns : List Text
  pub numeric_columns : List Text
  pub time_column : Option Text

pub record Schema : Type 0 where
  pub tables : List (Text × TableSchema)
  pub aggregate_functions : List Text
  pub granularities : List Text

unfoldable pub table_schema : TablePolicy → TableSchema
unfolding sort_texts
table_schema p = record {
  columns = sort_texts p.columns;
  group_by_columns = sort_texts p.group_by;
  filter_columns = sort_texts p.filter_columns;
  numeric_columns = sort_texts p.numeric_columns;
  time_column = p.time_column;
}

abbrev table_schemas : List (Text × TablePolicy) → List (Text × TableSchema)
table_schemas [] = []
table_schemas ((name, p) ∷ ps) = (name, table_schema p) ∷ table_schemas ps

unfoldable pub schema : Schema
unfolding allowed table_schema
schema = record {
  tables = table_schemas allowed;
  aggregate_functions = sort_texts allowed_agg;
  granularities = sort_texts allowed_granularity;
}

contains-insert_text :
    (x y : Text) (xs : List Text) → contains (insert_text x xs) y ≡ (x == y || contains xs y)
unfolding insert_text
contains-insert_text x y [] = refl
contains-insert_text x y (z ∷ zs) = elim (Bool-cases (text_leb x z)) [
  | inl before ↦ rw (before, insert_text) refl
  | inr behind ↦ rw (behind, insert_text) (ground (arith, contains-insert_text x y zs))
]

contains-sort_texts : (xs : List Text) (y : Text) → contains (sort_texts xs) y ≡ contains xs y
unfolding sort_texts
contains-sort_texts [] y = refl
contains-sort_texts (x ∷ xs) y =
    contains-insert_text x y (sort_texts xs) ∙ ap (λ b. x == y || b) (contains-sort_texts xs y)

-- The table that the schema lists under a name is the policy of that name.
lookup-table_schemas :
    (name : Text) (ps : List (Text × TablePolicy)) {t : TableSchema}
    → lookup name (table_schemas ps) ≡ some t
    → (p : TablePolicy) × (lookup name ps ≡ some p) × (t ≡ table_schema p)
unfolding lookup
lookup-table_schemas name [] h = cc h
lookup-table_schemas name ((n, p) ∷ ps) {t} h = elim (Bool-cases (n == name)) [
  | inl same ↦ let h' : some (table_schema p) ≡ some t = rw same at h in (p, rw same refl, cc h')
  | inr other ↦
      let h' : lookup name (table_schemas ps) ≡ some t = rw other at h in
      let (q, found, e) = lookup-table_schemas name ps h' in (q, rw other found, e)
]

-- The answer of a validator says whether the name was accepted.
abbrev pub is_ok : {A : Type 0} → Result A → Bool
is_ok (ok a) = true
is_ok (raise e) = false

check_column-is_ok :
    (columns : List Text) (before after c : Text)
    → is_ok (check_columns columns before after (c ∷ [])) ≡ contains columns c
unfolding check_columns
check_column-is_ok columns before after c = elim (Bool-cases (contains columns c)) [
  | inl yes_ ↦ rw yes_ refl
  | inr no_ ↦ rw no_ refl
]

policy-ok : (table : Text) (p : TablePolicy) → lookup table allowed ≡ some p → policy table ≡ ok p
unfolding policy
policy-ok table p h = rw (h, policy) refl

-- The schema that the model is given and the validators agree: on a table that the schema lists, the
-- accepted group-by columns, filter columns and numeric columns are exactly the listed ones.
pub schema-validators :
    (table c : Text) (t : TableSchema)
    → lookup table schema.tables ≡ some t
    → (is_ok (validate_group_by table (c ∷ [])) ≡ contains t.group_by_columns c)
      × (is_ok (validate_filter_keys table (c ∷ [])) ≡ contains t.filter_columns c)
      × (is_ok (validate_numeric_column table c) ≡ contains t.numeric_columns c)
unfolding schema validate_group_by validate_filter_keys validate_numeric_column table_schema
schema-validators table c t h =
    let (p, found, e) = lookup-table_schemas table allowed h in
    let known = policy-ok table p found in
    let group : is_ok (validate_group_by table (c ∷ [])) ≡ contains p.group_by c =
      rw (known, validate_group_by) (check_column-is_ok p.group_by _ _ c) in
    let filter : is_ok (validate_filter_keys table (c ∷ [])) ≡ contains p.filter_columns c =
      rw (known, validate_filter_keys) (check_column-is_ok p.filter_columns _ _ c) in
    let numeric : is_ok (validate_numeric_column table c) ≡ contains p.numeric_columns c =
      rw (known, validate_numeric_column) (numeric-is_ok p.numeric_columns _) in
    (
      group
          ∙ sym (contains-sort_texts p.group_by c)
          ∙ ap (λ (s : TableSchema). contains s.group_by_columns c) (sym e),
      filter
          ∙ sym (contains-sort_texts p.filter_columns c)
          ∙ ap (λ (s : TableSchema). contains s.filter_columns c) (sym e),
      numeric
          ∙ sym (contains-sort_texts p.numeric_columns c)
          ∙ ap (λ (s : TableSchema). contains s.numeric_columns c) (sym e),
    )
  where
    numeric-is_ok :
        (columns : List Text) (x : Error)
        → is_ok (if contains columns c then ok c else raise x) ≡ contains columns c
    numeric-is_ok columns x = elim (Bool-cases (contains columns c)) [
      | inl yes_ ↦ rw yes_ refl
      | inr no_ ↦ rw no_ refl
    ]
