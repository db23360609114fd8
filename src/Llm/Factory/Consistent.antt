-- ===== src/Llm/Factory/Consistent.antt =====
-- Settings that pass the validation, and the providers made from them.
use grounded_ops_agent.Core.Errors.{value_error, ok, >>=-eq-ok}
use grounded_ops_agent.Core.Settings.{
  EmbeddingProviderName, huggingface, openai_embeddings, fake_embeddings, LlmProviderName,
  anthropic, openai, fake, Settings, embedding_dims, embedding_dim, is_unset, check, is_anthropic,
  is_openai, is_openai_embeddings, check_consistency, check-ok,
}
use grounded_ops_agent.Llm.Anthropic.{nonempty_text}
use grounded_ops_agent.Llm.Embeddings.{
  Embedder, openai_embedder, EmbeddingLibs, openai_with, embedder_of, get_embedding_provider,
}
use grounded_ops_agent.Llm.Factory.{
  ProviderChoice, anthropic_provider, openai_provider, echo_provider, get_llm_provider,
}
use grounded_ops_agent.Prelude.{
  ℕ, ◌≡◌, refl, inl, inr, false, not, ◌&&◌, Option, none, some, [], ◌∷◌, Option-cases, Text, nat_eq,
  text_eq, contains,
}
use grounded_ops_agent.Prelude.Dict.{keys, lookup, lookup-eq-none}

-- A key that is set.
key_set : (k : Option Text) → is_unset k ≡ false → (t : Text) × (nonempty_text k ≡ some t)
key_set none h = cc h
key_set (some []) h = cc h
key_set (some (c ∷ s)) h = (c ∷ s, refl)

provider_with :
    (s : Settings) (name : LlmProviderName)
    → s.llm_provider ≡ name
    → (is_anthropic name && is_unset s.anthropic_api_key) ≡ false
    → (is_openai name && is_unset s.openai_api_key) ≡ false
    → (p : ProviderChoice) × (get_llm_provider s ≡ ok p)
unfolding get_llm_provider
provider_with s anthropic e h k =
    let (key, is) = key_set s.anthropic_api_key h in
    (anthropic_provider s.llm_model key s.llm_thinking, rw (e, get_llm_provider) (rw is refl))
provider_with s openai e h k =
    let (key, is) = key_set s.openai_api_key k in
    (openai_provider s.llm_model key, rw (e, get_llm_provider) (rw is refl))
provider_with s fake e h k = (echo_provider, rw (e, get_llm_provider) refl)

dim_of :
    (s : Settings)
    → not (contains (keys embedding_dims) s.embedding_model) ≡ false
    → (d : ℕ) × (embedding_dim s ≡ ok d)
unfolding embedding_dim
dim_of s h = elim (Option-cases (lookup s.embedding_model embedding_dims)) [
  | inl e ↦ let k = lookup-eq-none s.embedding_model embedding_dims e in let j = rw k at h in cc j
  | inr (d, e) ↦ (d, rw (e, embedding_dim) refl)
]

embedder_with :
    (libs : EmbeddingLibs) (s : Settings) (dim : ℕ) (name : EmbeddingProviderName)
    → (is_openai_embeddings name && is_unset s.openai_api_key) ≡ false
    → (b : Embedder) × (embedder_of libs s dim name ≡ ok b)
unfolding embedder_of openai_with
embedder_with libs s dim huggingface h = (_, refl)
embedder_with libs s dim fake_embeddings h = (_, refl)
embedder_with libs s dim openai_embeddings h =
    let (key, is) = key_set s.openai_api_key h in
    (openai_embedder (libs.create s.embedding_model key) s.embedding_model dim, rw is refl)

-- For settings that pass the model validator both providers can be made: neither the selected LLM
-- provider nor the selected embedding provider raises for a missing key or an unknown model, and the
-- validator gives the settings back as they are.
pub check_consistency_provider :
    (libs : EmbeddingLibs) (s s' : Settings)
    → check_consistency s ≡ ok s'
    → (s' ≡ s)
      × ((p : ProviderChoice) × (get_llm_provider s ≡ ok p))
      × ((b : Embedder) × (get_embedding_provider libs s ≡ ok b))
unfolding check_consistency get_embedding_provider
check_consistency_provider libs s s' h =
    let (_, known, h1) =
      >>=-eq-ok (check (not (contains (keys embedding_dims) s.embedding_model)) value_error) _ h in
    let (_, claude, h2) =
      >>=-eq-ok (check (is_anthropic s.llm_provider && is_unset s.anthropic_api_key) value_error) _
        h1 in
    let (_, gpt, h3) =
      >>=-eq-ok (check (is_openai s.llm_provider && is_unset s.openai_api_key) value_error) _ h2 in
    let (_, vectors, h4) =
      >>=-eq-ok
        (check (is_openai_embeddings s.embedding_provider && is_unset s.openai_api_key) value_error)
        _ h3 in
    let (d, dim) = dim_of s (check-ok _ _ known) in
    let (b, embeds) = embedder_with libs s d s.embedding_provider (check-ok _ _ vectors) in
    (
      cc h4,
      provider_with s s.llm_provider refl (check-ok _ _ claude) (check-ok _ _ gpt),
      (b, rw (dim, get_embedding_provider) embeds),
    )
