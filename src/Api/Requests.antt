-- ===== src/Api/Requests.antt =====
-- src/app/schemas/chat.py and what the handlers share. The bounds that pydantic checks are
-- predicates.
use grounded_ops_agent.Core.Errors.{validation_error, Result, ok, raise}
use grounded_ops_agent.Prelude.{
  ℕ, ◌≤◌, ◌≡◌, refl, inl, inr, Bool, true, Option, none, some, List, [], ◌∷◌, ◌++◌, arith, ltb,
  if◌then◌else◌, Bool-cases, length, take, length-take, Text, nat_eq, text_eq, contains,
}
use grounded_ops_agent.Prelude.Float.{Float}
use grounded_ops_agent.Retrieval.Types.{
  RetrievedChunk, SearchFilters, member_or_any, allows, IsAllowed,
}
use grounded_ops_agent.Text.Chars.{codes}
use grounded_ops_agent.Text.Decimal.{decimal}
use grounded_ops_agent.Text.Words.{split, join}

pub record ChatRequest : Type 0 where
  pub question : Text
  pub top_k : Option ℕ
  pub source_types : Option (List Text)

pub record SearchRequest : Type 0 where
  pub query : Text
  pub top_k : ℕ
  pub source_types : Option (List Text)

-- The constraints of the fields of `SearchRequest`.
pub record IsSearchRequest (r : SearchRequest) : Type 0 where
  pub query : 1 ≤ length r.query
  pub top_k_min : 1 ≤ r.top_k
  pub top_k_max : r.top_k ≤ 50

pub record ChunkResult : Type 0 where
  pub chunk_id : Text
  pub doc_id : Text
  pub source_type : Text
  pub title : Text
  pub snippet : Text
  pub score : Float
  pub retriever : Text

pub record SearchResponse : Type 0 where
  pub query : Text
  pub results : List ChunkResult

pub record IngestDocument : Type 0 where
  pub doc_id : Text
  pub source_type : Text
  pub title : Text
  pub text : Text
  pub markdown : Bool

pub record IngestResponse : Type 0 where
  pub documents : ℕ
  pub chunks : ℕ
  pub embedding_model : Text

-- `SearchFilters(source_types=tuple(kinds)) if kinds else None`
unfoldable pub filters_of : Option (List Text) → Option SearchFilters
filters_of none = none
filters_of (some []) = none
filters_of (some (k ∷ ks)) = some (record { source_types = some (k ∷ ks); doc_ids = none })

-- A text longer than a limit is refused.
unfoldable pub check_length : (limit : ℕ) (message text : Text) → Result (Unit {0})
check_length limit message text =
    if ltb limit (length text) then raise (validation_error message) else ok tt

abbrev pub exceeds : (what : Text) → ℕ → Text
exceeds what limit = what ++ codes " exceeds " ++ decimal limit ++ codes " characters"

-- `" ".join(content.split())[:300]`
unfoldable pub result_snippet : Text → Text
result_snippet content = take 300 (join (codes " ") (split content))

pub check_length-ok :
    (limit : ℕ) (message text : Text) {u : Unit {0}}
    → check_length limit message text ≡ ok u
    → length text ≤ limit
unfolding check_length
check_length-ok limit message text h = elim (Bool-cases (ltb limit (length text))) [
  | inl long ↦ let k = rw long at h in cc k
  | inr short ↦ ground arith
]

pub result_snippet-length : (content : Text) → length (result_snippet content) ≤ 300
unfolding result_snippet
result_snippet-length content = omega (arith, length-take 300 (join (codes " ") (split content)))

-- The source type is one that was asked for.
abbrev pub is_asked : Option (List Text) → Text → Bool
is_asked none kind = true
is_asked (some []) kind = true
is_asked (some (k ∷ ks)) kind = contains (k ∷ ks) kind

pub IsAllowed-is_asked :
    (kinds : Option (List Text)) (c : RetrievedChunk)
    → IsAllowed (filters_of kinds) c
    → is_asked kinds c.source_type ≡ true
unfolding filters_of allows member_or_any
IsAllowed-is_asked none c h = refl
IsAllowed-is_asked (some []) c h = refl
IsAllowed-is_asked (some (k ∷ ks)) c h = ground arith
