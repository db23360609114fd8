-- ===== src/Llm/Embeddings/Dimension.antt =====
-- The dimension of the vectors that a provider gives.
use grounded_ops_agent.Core.Errors.{◌>>=◌}
use grounded_ops_agent.Agent.Faithfulness.{occurs_in}
use grounded_ops_agent.Core.Errors.{Result, ok, >>=-eq-ok}
use grounded_ops_agent.Core.Settings.{
  EmbeddingProviderName, huggingface, openai_embeddings, fake_embeddings, Settings, embedding_dim,
}
use grounded_ops_agent.Llm.Anthropic.{nonempty_text}
use grounded_ops_agent.Llm.Embeddings.{
  check_dim, bge_query_instruction, Embedder, first_vector, hugging_face_query, checked_documents,
  hugging_face, openai_embedder, words_from, bump, count_words, zeros_of, embed_one, hashing,
  EmbeddingLibs, openai_with, embedder_of, get_embedding_provider,
}
use grounded_ops_agent.Prelude.{
  ℕ, zero, suc, ◌%◌, ◌≡◌, refl, sym, ap, ◌∙◌, subst, inl, inr, Option, none, some, List, [], ◌∷◌,
  ◌++◌, map, arith, if◌then◌else◌, Bool-cases, length, ◌==◌, Text, nat_eq, text_eq,
}
use grounded_ops_agent.Prelude.Float.{Float, FloatOps}
use grounded_ops_agent.Text.Chars.{codes}

bump-length : (floats : FloatOps) (i : ℕ) (xs : List Float) → length (bump floats i xs) ≡ length xs
unfolding bump
bump-length floats i [] = refl
bump-length floats zero (x ∷ xs) = refl
bump-length floats (suc i) (x ∷ xs) = ap suc (bump-length floats i xs)

count_words-length :
    (floats : FloatOps) (digest : Text → ℕ) (dim : ℕ) (ws : List Text) (vec : List Float)
    → length (count_words floats digest dim ws vec) ≡ length vec
unfolding count_words
count_words-length floats digest dim [] vec = refl
count_words-length floats digest dim (w ∷ ws) vec =
    count_words-length floats digest dim ws (bump floats (digest w % dim) vec)
    ∙ bump-length floats (digest w % dim) vec

zeros_of-length : (floats : FloatOps) (n : ℕ) → length (zeros_of floats n) ≡ n
zeros_of-length floats zero = refl
zeros_of-length floats (suc n) = ap suc (zeros_of-length floats n)

map-length : (f : Float → Float) (xs : List Float) → length (map f xs) ≡ length xs
map-length f [] = refl
map-length f (x ∷ xs) = ap suc (map-length f xs)

embed_one-length :
    (floats : FloatOps) (digest : Text → ℕ) (norm : List Float → Float) (lower : Text → Text)
    (dim : ℕ) (text : Text)
    → length (embed_one floats digest norm lower dim text) ≡ dim
unfolding embed_one
embed_one-length floats digest norm lower dim text =
    let vec = count_words floats digest dim (words_from [] (lower text)) (zeros_of floats dim) in
    let size : length vec ≡ dim =
      count_words-length floats digest dim (words_from [] (lower text)) (zeros_of floats dim)
      ∙ zeros_of-length floats dim in
    elim (Bool-cases (floats.lt (floats.of_ℕ 0) (norm vec))) [
      | inl positive ↦
          rw (positive, embed_one) (map-length (λ x. floats.div x (norm vec)) vec ∙ size)
      | inr other ↦ rw (other, embed_one) size
    ]

check_dim-ok :
    (model_name : Text) (dim : ℕ) (v : List Float) (vs : List (List Float)) {u : Unit {0}}
    → check_dim model_name dim (v ∷ vs) ≡ ok u
    → length v ≡ dim
unfolding check_dim
check_dim-ok model_name dim v vs h = elim (Bool-cases (length v == dim)) [
  | inl same ↦ ground arith
  | inr other ↦ let k = rw other at h in cc k
]

-- Every query vector of the provider has its dimension.
abbrev HasDim : ℕ → Embedder → Type 0
HasDim dim p =
    (p.dim ≡ dim) × ((text : Text) (v : List Float) → p.embed_query text ≡ ok v → length v ≡ dim)

hugging_face-HasDim :
    (encode : List Text → Result (List (List Float))) (lower : Text → Text) (model_name : Text)
    (dim : ℕ)
    → HasDim dim (hugging_face encode lower model_name dim)
unfolding hugging_face hugging_face_query
hugging_face-HasDim encode lower model_name dim = (refl, sized)
  where
    sized :
        (text : Text) (v : List Float)
        → hugging_face_query encode lower model_name dim text ≡ ok v
        → length v ≡ dim
    sized text v h =
        let prompt =
          if occurs_in (codes "bge") (lower model_name)
          then bge_query_instruction ++ text
          else text in
        let (vectors, _, h1) = >>=-eq-ok (encode (prompt ∷ [])) _ h in
        let (out, _, h2) = >>=-eq-ok (first_vector vectors) _ h1 in
        let (_, checked, h3) = >>=-eq-ok (check_dim model_name dim (out ∷ [])) _ h2 in
        let same : out ≡ v = cc h3 in
        subst (λ x. length x ≡ dim) same (check_dim-ok model_name dim out [] checked)

openai_embedder-HasDim :
    (create : List Text → Result (List (List Float))) (model_name : Text) (dim : ℕ)
    → HasDim dim (openai_embedder create model_name dim)
unfolding openai_embedder checked_documents
openai_embedder-HasDim create model_name dim = (refl, sized)
  where
    first_sized :
        (out : List (List Float)) (v : List Float) {u : Unit {0}}
        → check_dim model_name dim out ≡ ok u
        → first_vector out ≡ ok v
        → length v ≡ dim
    first_sized [] v checked h = cc h
    first_sized (x ∷ xs) v checked h =
        let same : x ≡ v = cc h in
        subst (λ y. length y ≡ dim) same (check_dim-ok model_name dim x xs checked)

    sized :
        (text : Text) (v : List Float)
        → (checked_documents create model_name dim (text ∷ []) >>= first_vector) ≡ ok v
        → length v ≡ dim
    sized text v h =
        let (out, h1, h2) = >>=-eq-ok (checked_documents create model_name dim (text ∷ [])) _ h in
        let (vectors, _, h3) = >>=-eq-ok (create (text ∷ [])) _ h1 in
        let (_, checked, h4) = >>=-eq-ok (check_dim model_name dim vectors) _ h3 in
        let same : vectors ≡ out = cc h4 in
        first_sized vectors v checked (subst (λ o. first_vector o ≡ ok v) (sym same) h2)

hashing-HasDim :
    (floats : FloatOps) (digest : Text → ℕ) (norm : List Float → Float) (lower : Text → Text)
    (dim : ℕ)
    → HasDim dim (hashing floats digest norm lower dim)
unfolding hashing
hashing-HasDim floats digest norm lower dim = (
  refl,
  λ text v h.
      let same : embed_one floats digest norm lower dim text ≡ v = cc h in
      subst (λ y. length y ≡ dim) same (embed_one-length floats digest norm lower dim text),
)

openai_with-HasDim :
    (libs : EmbeddingLibs) (s : Settings) (dim : ℕ) (key : Option Text) (p : Embedder)
    → openai_with libs s dim key ≡ ok p
    → HasDim dim p
openai_with-HasDim libs s dim none p h = cc h
openai_with-HasDim libs s dim (some key) p h =
    let same : openai_embedder (libs.create s.embedding_model key) s.embedding_model dim ≡ p =
      cc h in
    subst (HasDim dim) same
      (openai_embedder-HasDim (libs.create s.embedding_model key) s.embedding_model dim)

embedder_of-HasDim :
    (libs : EmbeddingLibs) (s : Settings) (dim : ℕ) (name : EmbeddingProviderName) (p : Embedder)
    → embedder_of libs s dim name ≡ ok p
    → HasDim dim p
unfolding embedder_of
embedder_of-HasDim libs s dim huggingface p h =
    let same : hugging_face (libs.encode s.embedding_model) libs.lower s.embedding_model dim ≡ p =
      cc h in
    subst (HasDim dim) same
      (hugging_face-HasDim (libs.encode s.embedding_model) libs.lower s.embedding_model dim)
embedder_of-HasDim libs s dim openai_embeddings p h =
    openai_with-HasDim libs s dim (nonempty_text s.openai_api_key) p h
embedder_of-HasDim libs s dim fake_embeddings p h =
    let same : hashing libs.floats libs.digest libs.norm libs.lower dim ≡ p = cc h in
    subst (HasDim dim) same (hashing-HasDim libs.floats libs.digest libs.norm libs.lower dim)

-- Whichever provider the settings select, its dimension is the one that the settings derive from the
-- embedding model, and each query vector that it returns has it.
pub get_embedding_provider-dim :
    (libs : EmbeddingLibs) (s : Settings) (p : Embedder) (text : Text) (v : List Float)
    → get_embedding_provider libs s ≡ ok p
    → p.embed_query text ≡ ok v
    → (embedding_dim s ≡ ok p.dim) × (length v ≡ p.dim)
unfolding get_embedding_provider
get_embedding_provider-dim libs s p text v h e =
    let (dim, derived, h1) = >>=-eq-ok (embedding_dim s) _ h in
    let (own, sized) = embedder_of-HasDim libs s dim s.embedding_provider p h1 in
    (derived ∙ ap ok (sym own), sized text v e ∙ sym own)
