-- ===== src/Llm/Embeddings.antt =====
-- src/app/llm/embeddings.py. The models, the hash and the float operations are parameters.
pub mod Dimension
use grounded_ops_agent.Core.Errors.{◌>>=◌, ◌>>◌}
use grounded_ops_agent.Agent.Faithfulness.{occurs_in}
use grounded_ops_agent.Core.Errors.{embedding_mismatch, provider_error, external, Result, ok, raise}
use grounded_ops_agent.Core.Settings.{
  EmbeddingProviderName, huggingface, openai_embeddings, fake_embeddings, Settings, embedding_dim,
}
use grounded_ops_agent.Llm.Anthropic.{nonempty_text}
use grounded_ops_agent.Prelude.{
  ℕ, zero, suc, ◌%◌, Bool, ◌&&◌, ◌||◌, Option, none, some, List, [], ◌∷◌, ◌++◌, map, leb,
  if◌then◌else◌, length, ◌==◌, Text, nat_eq, text_eq,
}
use grounded_ops_agent.Prelude.Float.{Float, FloatOps}
use grounded_ops_agent.Text.Chars.{codes}
use grounded_ops_agent.Text.Decimal.{decimal}
use grounded_ops_agent.Text.Words.{end_word}

-- `_check_dim`: the first vector has the dimension of the provider.
unfoldable pub check_dim : (model_name : Text) (dim : ℕ) → List (List Float) → Result (Unit {0})
check_dim model_name dim [] = ok tt
check_dim model_name dim (v ∷ vs) =
    if length v == dim
    then ok tt
    else raise (
        embedding_mismatch (
          codes "Model '"
          ++ model_name
          ++ codes "' returned dimension "
          ++ decimal (length v)
          ++ codes ", expected "
          ++ decimal dim
          ++ codes "."))

abbrev pub bge_query_instruction : Text
bge_query_instruction = codes "Represent this sentence for searching relevant passages: "

-- A provider that was constructed: its model, its dimension and what it does.
pub record Embedder : Type 0 where
  pub model_name : Text
  pub dim : ℕ
  pub embed_documents : List Text → Result (List (List Float))
  pub embed_query : Text → Result (List Float)

-- `vectors[0]`
abbrev pub first_vector : List (List Float) → Result (List Float)
first_vector [] = raise (external (codes "IndexError"))
first_vector (v ∷ vs) = ok v

-- `model.encode` of sentence-transformers, and `str.lower`.
unfoldable pub hugging_face_query :
    (encode : List Text → Result (List (List Float))) (lower : Text → Text)
    → (model_name : Text) (dim : ℕ) (text : Text) → Result (List Float)
unfolding check_dim occurs_in
hugging_face_query encode lower model_name dim text = do
  let prompt =
      if occurs_in (codes "bge") (lower model_name) then bge_query_instruction ++ text else text
  vectors ← encode (prompt ∷ [])
  out ← first_vector vectors
  check_dim model_name dim (out ∷ [])
  ok out

-- Encoding documents, by sentence-transformers or by the OpenAI API with its retries.
unfoldable pub checked_documents :
    (encode : List Text → Result (List (List Float))) (model_name : Text) (dim : ℕ)
    → List Text
    → Result (List (List Float))
unfolding check_dim
checked_documents encode model_name dim texts = do
  out ← encode texts
  check_dim model_name dim out
  ok out

unfoldable pub hugging_face :
    (encode : List Text → Result (List (List Float))) (lower : Text → Text)
    → (model_name : Text) (dim : ℕ) → Embedder
unfolding hugging_face_query checked_documents
hugging_face encode lower model_name dim = record {
  model_name = model_name;
  dim = dim;
  embed_documents = checked_documents encode model_name dim;
  embed_query = hugging_face_query encode lower model_name dim;
}

unfoldable pub openai_embedder :
    (create : List Text → Result (List (List Float))) (model_name : Text) (dim : ℕ) → Embedder
unfolding checked_documents
openai_embedder create model_name dim = record {
  model_name = model_name;
  dim = dim;
  embed_documents = checked_documents create model_name dim;
  embed_query = λ text. checked_documents create model_name dim (text ∷ []) >>= first_vector;
}

abbrev pub is_word_char : ℕ → Bool
is_word_char c = (leb b'a' c && leb c b'z') || (leb b'0' c && leb c b'9')

-- `re.findall("[a-z0-9]+", text)`; `cur` is the word that is read.
unfoldable pub words_from : (cur : Text) → Text → List Text
unfolding end_word
words_from cur [] = end_word cur []
words_from cur (c ∷ s) =
    let ended = end_word cur (words_from [] s) in
    let longer = words_from (cur ++ c ∷ []) s in if is_word_char c then longer else ended

-- `vec[i] += 1.0`
unfoldable pub bump : FloatOps → ℕ → List Float → List Float
bump floats i [] = []
bump floats zero (x ∷ xs) = floats.add x (floats.of_ℕ 1) ∷ xs
bump floats (suc i) (x ∷ xs) = x ∷ bump floats i xs

unfoldable pub count_words :
    FloatOps → (digest : Text → ℕ) (dim : ℕ) → List Text → List Float → List Float
unfolding bump
count_words floats digest dim [] vec = vec
count_words floats digest dim (w ∷ ws) vec =
    count_words floats digest dim ws (bump floats (digest w % dim) vec)

abbrev pub zeros_of : FloatOps → ℕ → List Float
zeros_of floats zero = []
zeros_of floats (suc n) = floats.of_ℕ 0 ∷ zeros_of floats n

-- `_embed_one`; `digest` is the number of the blake2b digest of a word, `norm` is `np.linalg.norm`.
unfoldable pub embed_one :
    FloatOps
    → (digest : Text → ℕ) (norm : List Float → Float) (lower : Text → Text) (dim : ℕ) → Text
    → List Float
unfolding count_words words_from
embed_one floats digest norm lower dim text =
    let vec = count_words floats digest dim (words_from [] (lower text)) (zeros_of floats dim) in
    let n = norm vec in if floats.lt (floats.of_ℕ 0) n then map (λ x. floats.div x n) vec else vec

unfoldable pub hashing :
    FloatOps
    → (digest : Text → ℕ) (norm : List Float → Float) (lower : Text → Text) (dim : ℕ) → Embedder
unfolding embed_one
hashing floats digest norm lower dim = record {
  model_name = codes "hashing-bow-" ++ decimal dim;
  dim = dim;
  embed_documents = λ texts. ok (map (embed_one floats digest norm lower dim) texts);
  embed_query = λ text. ok (embed_one floats digest norm lower dim text);
}

-- What the providers use of the outside.
pub record EmbeddingLibs : Type 0 where
  pub floats : FloatOps
  pub encode : (model_name : Text) → List Text → Result (List (List Float))
  pub create : (model_name api_key : Text) → List Text → Result (List (List Float))
  pub digest : Text → ℕ
  pub norm : List Float → Float
  pub lower : Text → Text

abbrev pub openai_with : EmbeddingLibs → Settings → (dim : ℕ) → Option Text → Result Embedder
openai_with libs s dim none =
    raise (provider_error (codes "OPENAI_API_KEY is required for OpenAI embeddings."))
openai_with libs s dim (some key) =
    ok (openai_embedder (libs.create s.embedding_model key) s.embedding_model dim)

-- `get_embedding_provider`, on the dimension and the provider of the settings.
unfoldable pub embedder_of :
    EmbeddingLibs → Settings → (dim : ℕ) → EmbeddingProviderName → Result Embedder
unfolding hugging_face openai_embedder hashing
embedder_of libs s dim huggingface =
    ok (hugging_face (libs.encode s.embedding_model) libs.lower s.embedding_model dim)
embedder_of libs s dim openai_embeddings = openai_with libs s dim (nonempty_text s.openai_api_key)
embedder_of libs s dim fake_embeddings =
    ok (hashing libs.floats libs.digest libs.norm libs.lower dim)

unfoldable pub get_embedding_provider : EmbeddingLibs → Settings → Result Embedder
unfolding embedder_of embedding_dim
get_embedding_provider libs s = do
  dim ← embedding_dim s
  embedder_of libs s dim s.embedding_provider
