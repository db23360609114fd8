-- ===== src/Agent/Consumer/Report.antt =====
-- What the consumer of `run` reads from the events that `report` emits.
use grounded_ops_agent.Core.Errors.{◌>>=◌}
use mathlib.Core.List.{append-nil, append_assoc}
use grounded_ops_agent.Agent.Consumer.{Collected, nothing_collected, consume_event, consume}
use grounded_ops_agent.Agent.Events.{AgentEvent, token}
use grounded_ops_agent.Agent.Orchestrator.{token_chunk, token_pieces, emit_tokens}
use grounded_ops_agent.Agent.Session.{Session, emit}
use grounded_ops_agent.Agent.Session.Triples.{Triple, Triple-pure, Triple-emit, Triple-bind}
use grounded_ops_agent.Core.Errors.{Result, ok, raise, >>=-ok}
use grounded_ops_agent.Prelude.{
  ℕ, zero, suc, ◌≤◌, ◌≡◌, refl, ◌∙◌, List, [], ◌∷◌, ◌++◌, arith, length, drop, concat,
  take-append-drop, length-drop, Text,
}

pub concat-token_pieces : (fuel : ℕ) (s : Text) → length s ≤ fuel → concat (token_pieces fuel s) ≡ s
unfolding token_pieces
concat-token_pieces zero [] h = refl
concat-token_pieces zero (c ∷ s) h = elim h [ ]
concat-token_pieces (suc fuel) [] h = refl
concat-token_pieces (suc fuel) (c ∷ s) h =
    let shorter = length-drop token_chunk (c ∷ s) in
    let rest = concat-token_pieces fuel (drop token_chunk (c ∷ s)) (omega arith) in
    rw rest (take-append-drop token_chunk (c ∷ s))

-- The consumer of the events emitted so far holds `c`.
abbrev pub Reads : {W : Type 0} → Session W → Collected → Type 0
Reads s c = consume s.emitted nothing_collected ≡ ok c

consume-append_after :
    (r : Result Collected) (f g : Collected → Result Collected) (e : AgentEvent) (c' : Collected)
    → ((c : Collected) → f c ≡ ok c' → g c ≡ consume_event e c')
    → (r >>= f) ≡ ok c'
    → (r >>= g) ≡ consume_event e c'
consume-append_after (ok c) f g e c' h k = h c k
consume-append_after (raise x) f g e c' h k = cc

pub consume-append :
    (es : List AgentEvent) (e : AgentEvent) (c c' : Collected)
    → consume es c ≡ ok c'
    → consume (es ++ e ∷ []) c ≡ consume_event e c'
unfolding consume
consume-append [] e c c' h = >>=-ok (consume_event e c) ∙ cc
consume-append (d ∷ es) e c c' h =
    consume-append_after (consume_event d c) (consume es) (consume (es ++ e ∷ [])) e c'
      (λ c'' k. consume-append es e c'' c' k) h

-- `K` depends on neither the events nor the world.
pub record Steady {W : Type 0} (K : Session W → Type 0) : Type 0 where
  pub emitted : (s : Session W) (es : List AgentEvent) → K s → K (record s { emitted = es })

-- What holds while the consumer has read `c`.
abbrev pub Reading : {W : Type 0} → (Session W → Type 0) → Collected → Session W → Type 0
Reading K c s = K s × Reads s c

module _ {W : Type 0} {K E : Session W → Type 0} (steady : Steady K) where
  pub emit-Reads :
      (e : AgentEvent) (c c' : Collected)
      → consume_event e c ≡ ok c'
      → Triple (Reading K c) (emit e) (λ _. Reading K c') E
  emit-Reads e c c' h =
      Triple-emit e (λ s (k, r).
        (steady.emitted s (s.emitted ++ e ∷ []) k, consume-append s.emitted e _ c r ∙ h))

  pub emit_tokens-Reads :
      (ts before : List Text) (c : Collected)
      → Triple
          (Reading K (record c { answer_parts = before }))
          (emit_tokens ts)
          (λ _. Reading K (record c { answer_parts = before ++ ts }))
          E
  unfolding emit_tokens consume_event
  emit_tokens-Reads [] before c = rw (append-nil before) (Triple-pure _ (λ s k. k))
  emit_tokens-Reads (t ∷ ts) before c =
      Triple-bind _ _ (emit-Reads (token t) _ _ refl)
        λ _. rw (← append_assoc before (t ∷ []) ts) (emit_tokens-Reads ts (before ++ t ∷ []) c)
