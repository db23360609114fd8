-- ===== src/Agent/Consumer/Grounded.antt =====
-- Results that rest on the records of the run.
use grounded_ops_agent.Agent.Session.{◌>>=◌}
use grounded_ops_agent.Agent.Citations.{validate_and_strip}
use grounded_ops_agent.Agent.Consumer.{Collected, nothing_collected, consume_event, result_of}
use grounded_ops_agent.Agent.Consumer.Recorded.{registered}
use grounded_ops_agent.Retrieval.Types.{RetrievedChunk}
use grounded_ops_agent.Agent.Consumer.Report.{
  concat-token_pieces, Reads, Steady, Reading, emit-Reads, emit_tokens-Reads,
}
use grounded_ops_agent.Agent.Events.{TraceStep, StopReason, Done, sources, trace, done, AgentResult}
use grounded_ops_agent.Agent.Generation.{Source, sources_for}
use grounded_ops_agent.Agent.Generation.Grounding.{IsSourceOf, sources_for_used}
use grounded_ops_agent.Agent.Orchestrator.{token_pieces, report_found, report}
use grounded_ops_agent.Agent.Orchestrator.Rules.{Outcome}
use grounded_ops_agent.Agent.Registry.{CitationRegistry}
use grounded_ops_agent.Agent.Registry.Invariant.{IsIndexed}
use grounded_ops_agent.Agent.Session.{Environment, Session, lift}
use grounded_ops_agent.Agent.Session.Triples.{
  Triple, Triple-lift, Triple-gets, Triple-bind, Triple-weaken,
}
use grounded_ops_agent.Core.Errors.{Error, ok, raise}
use grounded_ops_agent.Prelude.{
  ℕ, ◌≡◌, refl, ap, ◌∙◌, subst, Option, none, some, List, [], map, arith, length, All, Text,
}

-- The sources are those of the used indices, one for each, in order.
pub record Supported (r : CitationRegistry) (used : List ℕ) (found : List Source) : Type 0 where
  pub indexed : IsIndexed r
  pub numbered : map (λ (s : Source). s.index) found ≡ used
  pub built : All (IsSourceOf r) found

-- The result is made from what the model said last and the chunks that the run was given: the answer
-- is the text without the citations of indices that the registry of these chunks does not have, the
-- sources are the entries it cites, and the rounds are within the cap.
pub record IsGrounded (max_steps : ℕ) (given : List (List RetrievedChunk)) (said : Option Text)
    (a : AgentResult) : Type 0 where
  pub final_text : Text
  pub spoken : said ≡ some final_text
  pub answer : a.answer ≡ (validate_and_strip final_text (registered given)).0
  pub used_indices : a.used_indices ≡ (validate_and_strip final_text (registered given)).1
  pub sources : Supported (registered given) a.used_indices a.sources
  pub steps : Outcome max_steps 0 (final_text, a.stop_reason, a.steps)

pub sources_for-Supported :
    (r : CitationRegistry) (text : Text) (found : List Source)
    → IsIndexed r
    → sources_for r (validate_and_strip text r).1 ≡ ok found
    → Supported r (validate_and_strip text r).1 found
sources_for-Supported r text found v h =
    let (ss, e, numbered, built) = sources_for_used text r v in
    let same : ss ≡ found = cc (e, h) in
    record {
      indexed = v;
      numbered =
          subst (λ x. map (λ (s : Source). s.index) x ≡ (validate_and_strip text r).1) same
            numbered;
      built = subst (λ x. All (IsSourceOf r) x) same built;
    }

sources_for_total :
    (r : CitationRegistry) (text : Text) {e : Error}
    → IsIndexed r
    → sources_for r (validate_and_strip text r).1 ≡ raise e
    → ⊥
sources_for_total r text v h = let (ss, k, _, _) = sources_for_used text r v in cc (h, k)

module _ {W : Type 0} (env : Environment W) (said : W → Option Text)
    (given : W → List (List RetrievedChunk)) where
  -- The consumer has read events that make a grounded result.
  abbrev pub Finished : Session W → Type 0
  Finished s =
      (c : Collected) × Reads s c
      × IsGrounded env.settings.max_agent_steps (given s.world) (said s.world)
          (result_of env.floats env.model_name c)

  -- The registry and the final text are those of the run.
  pub record Facts (r : CitationRegistry) (text : Text) (s : Session W) : Type 0 where
    pub indexed : IsIndexed r
    pub made : r ≡ registered (given s.world)
    pub spoken : said s.world ≡ some text

  module _ (r : CitationRegistry) (x : Text × StopReason × ℕ)
      (o : Outcome env.settings.max_agent_steps 0 x) where
    abbrev cleaned : Text
    cleaned = (validate_and_strip x.0 r).0

    abbrev pieces : List Text
    pieces = token_pieces (length cleaned) cleaned

    abbrev after_sources : List Source → Collected
    after_sources found = record { answer_parts = pieces; sources = found; trace = []; done = none }

    finished :
        (d : Done) (found : List Source) (steps_trace : List TraceStep) (s : Session W)
        → Facts r x.0 s
        → d.used_indices ≡ (validate_and_strip x.0 r).1
        → d.steps ≡ x.2
        → d.stop_reason ≡ x.1
        → Supported r (validate_and_strip x.0 r).1 found
        → IsGrounded env.settings.max_agent_steps (given s.world) (said s.world) (
            result_of env.floats env.model_name (record {
              answer_parts = pieces;
              sources = found;
              trace = steps_trace;
              done = some d;
            }))
    unfolding result_of
    finished d found steps_trace s facts used steps reason supported =
        let from : validate_and_strip x.0 r ≡ validate_and_strip x.0 (registered (given s.world)) =
          ap (validate_and_strip x.0) facts.made in
        record {
          final_text = x.0;
          spoken = facts.spoken;
          answer = concat-token_pieces (length cleaned) cleaned (omega arith) ∙ ap (λ v. v.0) from;
          used_indices = used ∙ ap (λ v. v.1) from;
          sources = subst (λ q. Supported q d.used_indices found) facts.made (rw used supported);
          steps = rw (steps, reason) o;
        }

    -- The facts, and the sources once they are found.
    abbrev Found : List Source → Session W → Type 0
    Found found s = Facts r x.0 s × Supported r (validate_and_strip x.0 r).1 found

    steady : Steady (Facts r x.0)
    steady = record {
      emitted = λ s es k. record { indexed = k.indexed; made = k.made; spoken = k.spoken };
    }

    steady-Found : (found : List Source) → Steady (Found found)
    steady-Found found = record { emitted = λ s es (k, v). (steady.emitted s es k, v) }

    -- The events behind the tokens, and what has been read by then.
    tail-Triple :
        {E : Session W → Type 0}
        → Triple
            (Reading (Facts r x.0) (after_sources []))
            (do
              found ← lift (sources_for r (validate_and_strip x.0 r).1)
              report_found env x (validate_and_strip x.0 r).1 found)
            (λ _. Finished)
            E
    unfolding consume_event report_found
    tail-Triple =
        Triple-bind {Q = λ found. Reading (Found found) (after_sources [])} _ _
          (Triple-lift _
            (λ found s h (v, k). ((v, sources_for-Supported r x.0 found v.indexed h), k))
            (λ e s h (v, k). absurd (sources_for_total r x.0 v.indexed h)))
          λ found.
            Triple-bind _ _
              (emit-Reads (steady-Found found) (sources found) _ (after_sources found) refl)
              λ _.
                Triple-bind {Q = λ _. Reading (Found found) (after_sources found)} _ _
                  (Triple-gets _ (λ s p. p))
                  λ steps_trace.
                    Triple-bind _ _ (emit-Reads (steady-Found found) (trace steps_trace) _ _ refl)
                      λ _. Triple-bind _ _ (Triple-gets _ (λ s p. p)) λ usage.
                        Triple-bind _ _ (Triple-gets _ (λ s p. p)) λ model.
                          Triple-weaken (emit-Reads (steady-Found found) (done _) _ _ refl)
                            (λ s p. p)
                            (λ _ s ((v, y), k).
                              (_, k, finished _ found steps_trace s v refl refl refl y))
                            (λ s e. e)

  -- The report of a final text is grounded in the registry of the run.
  pub report-Triple :
      (x : Text × StopReason × ℕ)
      → Outcome env.settings.max_agent_steps 0 x
      → {E : Session W → Type 0}
      → Triple
          (Reading (λ s. Facts s.registry x.0 s) nothing_collected)
          (report env x)
          (λ _. Finished)
          E
  unfolding report
  report-Triple x o =
      Triple-bind {Q = λ r. Reading (Facts r x.0) nothing_collected} _ _ (Triple-gets _ (λ s p. p))
        λ r.
          Triple-bind _ _ (emit_tokens-Reads (steady r x o) (pieces r x o) [] nothing_collected)
            λ _. tail-Triple r x o
