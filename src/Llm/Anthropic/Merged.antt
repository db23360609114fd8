-- ===== src/Llm/Anthropic/Merged.antt =====
-- The turns of a request against the messages of the conversation.
use mathlib.Core.List.{append-nil, append_assoc}
use grounded_ops_agent.Llm.Anthropic.{
  Block, Message, user_text, user_results, assistant_blocks, assistant_text, content_of,
  result_block, flush, blocks_or, assistant_message, to_messages_from, to_messages,
}
use grounded_ops_agent.Llm.Types.{Role, user, assistant, tool, LlmMessage}
use grounded_ops_agent.Prelude.{
  ◌≡◌, refl, sym, ap, ◌∙◌, ◌⊎◌, inl, inr, Bool, true, false, not, ◌&&◌, List, [], ◌∷◌, ◌++◌, map,
  Text,
}

-- One turn of a tool result for each block.
abbrev pub single_results : List Block → List Message
single_results bs = map (λ b. user_results (b ∷ [])) bs

-- The request with every turn of tool results taken apart.
unfoldable pub taken_apart : List Message → List Message
taken_apart [] = []
taken_apart (user_results bs ∷ ms) = single_results bs ++ taken_apart ms
taken_apart (user_text t ∷ ms) = user_text t ∷ taken_apart ms
taken_apart (assistant_blocks bs ∷ ms) = assistant_blocks bs ∷ taken_apart ms
taken_apart (assistant_text t ∷ ms) = assistant_text t ∷ taken_apart ms

-- The turn of a single message.
abbrev pub turn_as : Role → LlmMessage → Message
turn_as tool m = user_results (result_block m ∷ [])
turn_as user m = user_text (content_of m)
turn_as assistant m = assistant_message m

abbrev pub turn_of : LlmMessage → Message
turn_of m = turn_as m.role m

abbrev pub starts_with_results : List Message → Bool
starts_with_results [] = false
starts_with_results (user_results bs ∷ ms) = true
starts_with_results (user_text t ∷ ms) = false
starts_with_results (assistant_blocks bs ∷ ms) = false
starts_with_results (assistant_text t ∷ ms) = false

abbrev has_results : List Block → Bool
has_results [] = false
has_results (b ∷ bs) = true

-- No turn of tool results is empty or follows another one.
unfoldable pub is_merged : List Message → Bool
is_merged [] = true
is_merged (user_results bs ∷ ms) = has_results bs && not (starts_with_results ms) && is_merged ms
is_merged (user_text t ∷ ms) = is_merged ms
is_merged (assistant_blocks bs ∷ ms) = is_merged ms
is_merged (assistant_text t ∷ ms) = is_merged ms

-- A message without tool results.
abbrev is_plain : Message → Bool
is_plain (user_results bs) = false
is_plain _ = true

taken_apart-flush :
    (pending : List Block) (m : Message) (ms : List Message)
    → is_plain m ≡ true
    → taken_apart (flush pending ++ m ∷ ms) ≡ single_results pending ++ m ∷ taken_apart ms
unfolding taken_apart flush
taken_apart-flush [] (user_text t) ms h = refl
taken_apart-flush [] (assistant_blocks bs) ms h = refl
taken_apart-flush [] (assistant_text t) ms h = refl
taken_apart-flush [] (user_results bs) ms h = cc h
taken_apart-flush (b ∷ bs) (user_text t) ms h = refl
taken_apart-flush (b ∷ bs) (assistant_blocks cs) ms h = refl
taken_apart-flush (b ∷ bs) (assistant_text t) ms h = refl
taken_apart-flush (b ∷ bs) (user_results cs) ms h = cc h

is_merged-flush :
    (pending : List Block) (m : Message) (ms : List Message)
    → is_plain m ≡ true
    → is_merged (flush pending ++ m ∷ ms) ≡ is_merged ms
unfolding is_merged flush
is_merged-flush [] (user_text t) ms h = refl
is_merged-flush [] (assistant_blocks bs) ms h = refl
is_merged-flush [] (assistant_text t) ms h = refl
is_merged-flush [] (user_results bs) ms h = cc h
is_merged-flush (b ∷ bs) (user_text t) ms h = refl
is_merged-flush (b ∷ bs) (assistant_blocks cs) ms h = refl
is_merged-flush (b ∷ bs) (assistant_text t) ms h = refl
is_merged-flush (b ∷ bs) (user_results cs) ms h = cc h

plain_blocks : (bs : List Block) (t : Text) → is_plain (blocks_or bs t) ≡ true
plain_blocks [] t = refl
plain_blocks (b ∷ bs) t = refl

assistant_plain : (m : LlmMessage) → is_plain (assistant_message m) ≡ true
unfolding assistant_message
assistant_plain m = plain_blocks _ (content_of m)

flushed :
    (pending : List Block)
    → (taken_apart (flush pending) ≡ single_results pending) × (is_merged (flush pending) ≡ true)
unfolding taken_apart is_merged flush
flushed [] = (refl, refl)
flushed (b ∷ bs) = (append-nil (single_results (b ∷ bs)), refl)

single_results-append :
    (bs cs : List Block) → single_results (bs ++ cs) ≡ single_results bs ++ single_results cs
single_results-append [] cs = refl
single_results-append (b ∷ bs) cs =
    ap (λ r. user_results (b ∷ []) ∷ r) (single_results-append bs cs)

to_messages_from-turns :
    (pending : List Block) (ms : List LlmMessage)
    → (taken_apart (to_messages_from pending ms) ≡ single_results pending ++ map turn_of ms)
      × (is_merged (to_messages_from pending ms) ≡ true)
unfolding to_messages_from result_block assistant_message
to_messages_from-turns pending [] =
    let (a, b) = flushed pending in (a ∙ sym (append-nil (single_results pending)), b)
to_messages_from-turns pending (m ∷ ms) = elim (Role-cases m.role) [
  | inl e ↦
      let (a, b) = to_messages_from-turns (pending ++ result_block m ∷ []) ms in
      rw (e, to_messages_from)
        (
          a
              ∙ ap (λ x. x ++ map turn_of ms) (single_results-append pending (result_block m ∷ []))
              ∙ append_assoc (single_results pending) (turn_as tool m ∷ []) (map turn_of ms),
          b,
        )
  | inr (inl e) ↦
      let (a, b) = to_messages_from-turns [] ms in
      let rest = to_messages_from [] ms in
      rw (e, to_messages_from)
        (
          taken_apart-flush pending (user_text (content_of m)) rest refl
              ∙ ap (λ x. single_results pending ++ user_text (content_of m) ∷ x) a,
          is_merged-flush pending (user_text (content_of m)) rest refl ∙ b,
        )
  | inr (inr e) ↦
      let (a, b) = to_messages_from-turns [] ms in
      let rest = to_messages_from [] ms in
      rw (e, to_messages_from)
        (
          taken_apart-flush pending (assistant_message m) rest (assistant_plain m)
              ∙ ap (λ x. single_results pending ++ assistant_message m ∷ x) a,
          is_merged-flush pending (assistant_message m) rest (assistant_plain m) ∙ b,
        )
]
  where
    Role-cases : (r : Role) → (r ≡ tool) ⊎ ((r ≡ user) ⊎ (r ≡ assistant))
    Role-cases tool = inl refl
    Role-cases user = inr (inl refl)
    Role-cases assistant = inr (inr refl)

-- Translating a conversation for Anthropic keeps every message at its place: with the turns of tool
-- results taken apart, the request has one turn for each message, in order. And it merges every run of
-- tool results into one user turn: no turn of tool results is empty or follows another one.
pub to_messages-results :
    (ms : List LlmMessage)
    → (taken_apart (to_messages ms) ≡ map turn_of ms) × (is_merged (to_messages ms) ≡ true)
unfolding to_messages
to_messages-results ms = to_messages_from-turns [] ms
