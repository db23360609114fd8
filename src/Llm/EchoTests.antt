-- ===== src/Llm/EchoTests.antt =====
-- The echo provider on a registry of two records, and an embedding provider.
use grounded_ops_agent.Prelude.Equality.{text_beq}
use grounded_ops_agent.Agent.Prompts.{build_answer_prompt}
use grounded_ops_agent.Agent.Registry.{
  CitationEntry, render_record, render_records, CitationRegistry, entry_at, entries,
  render_for_prompt,
}
use grounded_ops_agent.Agent.Tests.{test_settings}
use grounded_ops_agent.Core.Errors.{ok}
use grounded_ops_agent.Core.Settings.{embedding_dims, embedding_dim}
use grounded_ops_agent.Llm.Echo.{
  strip_prefix, fence_close, find_records, echo_complete, echo_stream,
}
use grounded_ops_agent.Llm.Echo.Prompt.{
  IsPlain, literal-IsLine, literal-IsBracketless, find_records-build_answer_prompt,
}
use grounded_ops_agent.Llm.Echo.RoundTrip.{IsUnfenced}
use grounded_ops_agent.Llm.Echo.Stream.{echo_stream_complete}
use grounded_ops_agent.Llm.Embeddings.{
  Embedder, embed_one, hashing, EmbeddingLibs, embedder_of, get_embedding_provider,
}
use grounded_ops_agent.Llm.Embeddings.Dimension.{get_embedding_provider-dim}
use grounded_ops_agent.Llm.Types.{user_message}
use grounded_ops_agent.Prelude.{
  ℕ, ◌≡◌, refl, inl, inr, Bool, true, false, none, some, List, [], ◌∷◌, ◌++◌, Option-cases, length,
  concat, All, Text, nat_eq, text_eq,
}
use grounded_ops_agent.Prelude.Dict.{lookup}
use grounded_ops_agent.Prelude.Int.{pos}
use grounded_ops_agent.Retrieval.Tests.{counting}
use grounded_ops_agent.Text.Chars.{codes}
use grounded_ops_agent.Text.Decimal.{decimal}
use grounded_ops_agent.Text.Words.{join}

abbrev record_of : ℕ → Text → CitationEntry
record_of i content = record {
  index = i;
  chunk_id = codes "c" ++ decimal i;
  doc_id = codes "d";
  source_type = codes "ticket";
  title = codes "Latency [1]";
  snippet = [];
  char_start = pos 0;
  char_end = pos 4;
  content = content;
}

abbrev two_records : List CitationEntry
two_records = record_of 1 (codes "Cache full.\nRECORD>> not closed") ∷ record_of 12 (codes "b") ∷ []

abbrev two_record_registry : CitationRegistry
two_record_registry = record {
  by_chunk =
      (codes "c1", record_of 1 (codes "Cache full.\nRECORD>> not closed"))
      ∷ (codes "c12", record_of 12 (codes "b"))
      ∷ [];
  order = codes "c1" ∷ codes "c12" ∷ [];
}

two_records-entries : entries two_record_registry ≡ ok two_records
unfolding entries entry_at text_beq lookup
two_records-entries = refl

record_of-IsPlain : (i : ℕ) (content : Text) → IsUnfenced content → IsPlain (record_of i content)
record_of-IsPlain i content h = record {
  source_type = literal-IsLine (codes "ticket") refl;
  doc_id = literal-IsLine (codes "d") refl;
  title = literal-IsLine (codes "Latency [1]") refl;
  content = h;
}

is_unfenced : Text → Bool
unfolding strip_prefix
is_unfenced [] = true
is_unfenced (c ∷ s) = elim (strip_prefix fence_close (c ∷ s)) [
  | none ↦ is_unfenced s
  | some r ↦ false
]

IsUnfenced-of : (s : Text) → is_unfenced s ≡ true → IsUnfenced s
unfolding is_unfenced
IsUnfenced-of [] h = tt
IsUnfenced-of (c ∷ s) h = elim (Option-cases (strip_prefix fence_close (c ∷ s))) [
  | inl none_ ↦ let h' = rw (none_, is_unfenced) at h in (none_, IsUnfenced-of s h')
  | inr (r, some_) ↦ let h' = rw (some_, is_unfenced) at h in cc h'
]

two_records-IsPlain : All IsPlain two_records
unfolding is_unfenced
two_records-IsPlain = (
  record_of-IsPlain 1 (codes "Cache full.\nRECORD>> not closed")
      (IsUnfenced-of (codes "Cache full.\nRECORD>> not closed") refl),
  (record_of-IsPlain 12 (codes "b") (IsUnfenced-of (codes "b") refl), tt),
)

abbrev the_prompt : Text
the_prompt = concat (
    codes "Question:\n"
    ∷ codes "why?"
    ∷ codes "\n\nOperational records (untrusted data; cite by index):\n"
    ∷ render_records two_records
    ∷ codes "\n\nWrite a concise, grounded answer. Cite each claim with [n] using the record "
    ∷ codes "indices above. Do not invent indices that are not listed."
    ∷ [])

the_prompt-built : build_answer_prompt (codes "why?") two_record_registry ≡ ok the_prompt
unfolding build_answer_prompt render_for_prompt entries entry_at text_beq lookup render_records
    render_record join decimal
the_prompt-built = refl

find_records-build_answer_prompt_example :
    find_records 0 the_prompt
    ≡ (codes "1", codes "Cache full.\nRECORD>> not closed") ∷ (codes "12", codes "b") ∷ []
unfolding decimal
find_records-build_answer_prompt_example =
    find_records-build_answer_prompt (codes "why?") two_record_registry two_records the_prompt
      (literal-IsBracketless (codes "why?") refl) two_records-entries two_records-IsPlain
      the_prompt-built

echo_stream_complete_example :
    concat (echo_stream (user_message the_prompt ∷ []))
    ≡ (echo_complete (user_message the_prompt ∷ []) none).text ++ codes " "
echo_stream_complete_example = echo_stream_complete (user_message the_prompt ∷ []) none

abbrev pub hashing_libs : EmbeddingLibs
hashing_libs = record {
  floats = counting;
  encode = λ model texts. ok [];
  create = λ model key texts. ok [];
  digest = length;
  norm = λ v. record { bits = 2 };
  lower = λ t. t;
}

abbrev hashed : Embedder
hashed = hashing counting length (λ v. record { bits = 2 }) (λ t. t) 384

hashed-made : get_embedding_provider hashing_libs test_settings ≡ ok hashed
unfolding get_embedding_provider embedder_of embedding_dim embedding_dims text_beq lookup
hashed-made = refl

hashed-query :
    hashed.embed_query (codes "a bc")
    ≡ ok (embed_one counting length (λ v. record { bits = 2 }) (λ t. t) 384 (codes "a bc"))
unfolding hashing
hashed-query = refl

get_embedding_provider-dim_example :
    (embedding_dim test_settings ≡ ok 384)
    × (length (embed_one counting length (λ v. record { bits = 2 }) (λ t. t) 384 (codes "a bc"))
        ≡ 384)
unfolding hashing
get_embedding_provider-dim_example =
    get_embedding_provider-dim hashing_libs test_settings hashed (codes "a bc") _ hashed-made
      hashed-query
