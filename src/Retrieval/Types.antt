-- ===== src/Retrieval/Types.antt =====
-- src/app/retrieval/types.py.
use grounded_ops_agent.Prelude.{
  Bool, true, false, not, Option, none, some, List, if◌then◌else◌, nat_eq, Text, text_eq, contains,
}
use grounded_ops_agent.Prelude.Float.{Float}
use grounded_ops_agent.Prelude.Int.{ℤ}
use grounded_ops_agent.Prelude.{◌≡◌}

pub record RetrievedChunk : Type 0 where
  pub chunk_id : Text
  pub doc_id : Text
  pub source_type : Text
  pub title : Text
  pub content : Text
  pub char_start : ℤ
  pub char_end : ℤ
  pub score : Float
  pub retriever : Text

pub record SearchFilters : Type 0 where
  pub source_types : Option (List Text)
  pub doc_ids : Option (List Text)

-- `allowed is None or value in allowed`
unfoldable pub member_or_any : Option (List Text) → Text → Bool
member_or_any none v = true
member_or_any (some vs) v = contains vs v

unfoldable pub allows : SearchFilters → Text → Text → Bool
unfolding member_or_any
allows f source_type doc_id =
    if not (member_or_any f.source_types source_type) then false else member_or_any f.doc_ids doc_id

unfoldable pub is_empty : SearchFilters → Bool
is_empty f = elim f.source_types [
  | some _ ↦ false
  | none ↦ elim f.doc_ids [ some _ ↦ false | none ↦ true ]
]

-- The chunk is one that the filters let through.
abbrev pub IsAllowed : Option SearchFilters → RetrievedChunk → Type 0
IsAllowed none c = Unit
IsAllowed (some f) c = allows f c.source_type c.doc_id ≡ true
