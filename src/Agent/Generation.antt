-- ===== src/Agent/Generation.antt =====
-- src/app/agent/generation.py: the sources array. `generate_grounded_answer` is in Agent/Grounded.
pub mod Grounding
use grounded_ops_agent.Agent.Registry.{CitationEntry, CitationRegistry, entries}
use grounded_ops_agent.Core.Errors.{Result, ok, ◌>>=◌}
use grounded_ops_agent.Prelude.{ℕ, List, map, keep_if, nat_eq, Text, text_eq, contains}
use grounded_ops_agent.Prelude.Int.{ℤ}

pub record Source : Type 0 where
  pub index : ℕ
  pub chunk_id : Text
  pub doc_id : Text
  pub source_type : Text
  pub title : Text
  pub snippet : Text
  pub char_start : ℤ
  pub char_end : ℤ

unfoldable pub source_of : CitationEntry → Source
source_of e = record {
  index = e.index;
  chunk_id = e.chunk_id;
  doc_id = e.doc_id;
  source_type = e.source_type;
  title = e.title;
  snippet = e.snippet;
  char_start = e.char_start;
  char_end = e.char_end;
}

unfoldable pub sources_for : CitationRegistry → List ℕ → Result (List Source)
sources_for r used = do es ← entries r; ok (map source_of (keep_if (λ e. contains used e.index) es))
