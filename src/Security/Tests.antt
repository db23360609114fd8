-- ===== src/Security/Tests.antt =====
-- The schema of one table.
use grounded_ops_agent.Prelude.Equality.{text_beq}
use grounded_ops_agent.Prelude.{◌≡◌, refl, true, false, none, some, [], ◌∷◌, nat_eq, text_eq}
use grounded_ops_agent.Prelude.Dict.{lookup}
use grounded_ops_agent.Security.Whitelist.{
  allowed, validate_group_by, validate_filter_keys, validate_numeric_column,
}
use grounded_ops_agent.Security.Whitelist.Schema.{
  insert_text, sort_texts, TableSchema, table_schema, schema, is_ok, schema-validators,
}
use grounded_ops_agent.Text.Chars.{codes}
use grounded_ops_agent.Text.Order.{text_leb}

abbrev slas_schema : TableSchema
slas_schema = record {
  columns =
      codes "id"
      ∷ codes "name"
      ∷ codes "target_resolution_minutes"
      ∷ codes "tier"
      ∷ codes "uptime_target_pct"
      ∷ [];
  group_by_columns = codes "tier" ∷ [];
  filter_columns = codes "tier" ∷ [];
  numeric_columns = codes "target_resolution_minutes" ∷ codes "uptime_target_pct" ∷ [];
  time_column = none;
}

slas_schema-listed : lookup (codes "slas") schema.tables ≡ some slas_schema
unfolding schema table_schema sort_texts insert_text text_leb lookup text_beq allowed
slas_schema-listed = refl

schema-validators_example :
    (is_ok (validate_group_by (codes "slas") (codes "tier" ∷ [])) ≡ true)
    × (is_ok (validate_filter_keys (codes "slas") (codes "tier" ∷ [])) ≡ true)
    × (is_ok (validate_numeric_column (codes "slas") (codes "tier")) ≡ false)
unfolding text_beq
schema-validators_example =
    schema-validators (codes "slas") (codes "tier") slas_schema slas_schema-listed
