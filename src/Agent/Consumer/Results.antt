-- ===== src/Agent/Consumer/Results.antt =====
-- What `run` returns.
use grounded_ops_agent.Core.Errors.{◌>>=◌, ◌>>◌}
use grounded_ops_agent.Agent.Consumer.{Collected, nothing_collected, consume, result_of, run}
use grounded_ops_agent.Agent.Consumer.Grounded.{IsGrounded, Finished}
use grounded_ops_agent.Agent.Consumer.Recorded.{Recorded, registered_from, registered}
use grounded_ops_agent.Agent.Consumer.Report.{Reads}
use grounded_ops_agent.Agent.Consumer.Rounds.{events-Triple}
use grounded_ops_agent.Agent.Consumer.Sound.{is_tool_error, Collaborators, ok_not_raise, Sound}
use grounded_ops_agent.Agent.Events.{ToolOutcome, AgentResult}
use grounded_ops_agent.Agent.Extract.{extract_chunk_records}
use grounded_ops_agent.Agent.Orchestrator.{events, new_session}
use grounded_ops_agent.Agent.Prompts.{agent_system}
use grounded_ops_agent.Agent.Registry.Invariant.{IsIndexed-empty}
use grounded_ops_agent.Agent.Session.{Environment, Session}
use grounded_ops_agent.Agent.Session.Triples.{Post}
use grounded_ops_agent.Core.Effects.{reads}
use grounded_ops_agent.Core.Errors.{Error, Result, ok, raise}
use grounded_ops_agent.Llm.Types.{Fields, ToolSpec, LlmMessage, LlmResponse}
use grounded_ops_agent.Prelude.{
  ℕ, ◌≡◌, refl, sym, ap, ◌∙◌, subst, true, false, Option, List, [], Text,
}
use grounded_ops_agent.Retrieval.Types.{RetrievedChunk, SearchFilters}

-- Every collaborator answers, a tool call that fails raises a tool error, and the chunks of the
-- outcomes that tool calls give can be read: `int` and `float` convert the numbers in them.
pub record Reliable {W : Type 0} (env : Environment W) : Type 0 where
  pub count_tokens :
      (messages : List LlmMessage) (tools : List ToolSpec) (w : W)
      → (n : ℕ) × ((env.count_tokens messages agent_system tools w).0 ≡ ok n)
  pub complete :
      (messages : List LlmMessage) (tools : Option (List ToolSpec)) (w : W)
      → (r : LlmResponse) × ((env.complete agent_system messages tools
            env.settings.max_output_tokens w).0
          ≡ ok r)
  pub retrieve :
      (question : Text) (top_k : ℕ) (filters : Option SearchFilters) (w : W)
      → (chunks : List RetrievedChunk) × ((env.retrieve question top_k filters w).0 ≡ ok chunks)
  pub list_tools : (w : W) → (tools : List ToolSpec) × ((env.list_tools w).0 ≡ ok tools)
  pub call_tool :
      (name : Text) (arguments : Fields) (timeout : ℕ) (w : W) {e : Error}
      → (env.call_tool name arguments timeout w).0 ≡ raise e
      → is_tool_error e ≡ true
  pub extracted :
      (name : Text) (arguments : Fields) (timeout : ℕ) (w : W) (outcome : ToolOutcome)
      → (env.call_tool name arguments timeout w).0 ≡ ok outcome
      → (chunks : List RetrievedChunk) × (extract_chunk_records env outcome ≡ ok chunks)

true_not_false : true ≡ false → ⊥
true_not_false h = cc

bind-raise : {A B : Type 0} (r : Result A) (e : Error) {b : B} → (r >>= λ a. raise e) ≡ ok b → ⊥
bind-raise (ok a) e h = cc
bind-raise (raise x) e h = cc

module _ {W : Type 0} (env : Environment W) where
  any_collaborators : Collaborators env (λ s. Unit)
  any_collaborators = record {
    count_tokens = λ m t s h. tt;
    complete = λ m t s h. tt;
    retrieve = λ q k f s h. tt;
    list_tools = λ s h. tt;
    call_tool = λ n a t s h k. tt;
    extracted = λ n a t w h k s. tt;
  }

  reliable_collaborators : Reliable env → Collaborators env (λ s. ⊥)
  reliable_collaborators r = record {
    count_tokens = λ m t s h. ok_not_raise (r.count_tokens m t s.world).1 h;
    complete = λ m t s h. ok_not_raise (r.complete m t s.world).1 h;
    retrieve = λ q k f s h. ok_not_raise (r.retrieve q k f s.world).1 h;
    list_tools = λ s h. ok_not_raise (r.list_tools s.world).1 h;
    call_tool = λ n a t s h k. true_not_false (sym (r.call_tool n a t s.world h) ∙ k);
    extracted = λ n a t w {outcome} h k s. ok_not_raise (r.extracted n a t w outcome h).1 k;
  }

  abbrev answer_of : Result (Unit {0}) × Session W → Result AgentResult
  answer_of (ended, s) = do
    c ← consume s.emitted nothing_collected
    ended
    ok (result_of env.floats env.model_name c)

  answer_of-ok :
      (u : Unit {0}) (s : Session W) {c : Collected} {a : AgentResult}
      → Reads s c
      → answer_of (ok u, s) ≡ ok a
      → result_of env.floats env.model_name c ≡ a
  answer_of-ok u s reads h = let k = rw reads at h in cc k

module _ {W : Type 0} {env : Environment W} {said : W → Option Text}
    {given : W → List (List RetrievedChunk)} (log : Recorded env said given) where
  -- The result rests on what the world records.
  abbrev pub IsGroundedIn : W → AgentResult → Type 0
  IsGroundedIn w a = IsGrounded env.settings.max_agent_steps (given w) (said w) a

  answer_of-IsGrounded :
      (x : Result (Unit {0}) × Session W) {a : AgentResult}
      → Post (λ _. Finished env said given) (λ s. Unit) x
      → answer_of env x ≡ ok a
      → IsGroundedIn x.1.world a
  answer_of-IsGrounded (ok u, s) {a = a} (c, reads, g) h =
      let e : result_of env.floats env.model_name c ≡ a = answer_of-ok env u s reads h in
      subst (IsGroundedIn s.world) e g
  answer_of-IsGrounded (raise e, s) p h =
      absurd (bind-raise (consume s.emitted nothing_collected) e h)

  answer_of-total :
      (x : Result (Unit {0}) × Session W)
      → Post (λ _. Finished env said given) (λ s. ⊥) x
      → (a : AgentResult) × (answer_of env x ≡ ok a) × IsGroundedIn x.1.world a
  answer_of-total (ok u, s) (c, reads, g) =
      (result_of env.floats env.model_name c, rw reads refl, g)
  answer_of-total (raise e, s) p = absurd p

  new_session-Sound : (w : W) → given w ≡ [] → Sound given (new_session env w)
  unfolding consume registered_from
  new_session-Sound w h = ((IsIndexed-empty, ap registered (sym h)), refl)

  -- Where the world records what the model said last and the chunks that retrievals and tool calls
  -- gave, the answer of a run that returns rests on them: it is the model's last text without the
  -- citations of indices that the registry of all these chunks, added in order, does not have; the
  -- used indices are those of its citations that this registry has, the sources are their entries, one
  -- for each, in order; and the rounds are at most `max_agent_steps`, which they reach exactly where
  -- the stop reason is `step_cap`.
  pub run-IsGrounded :
      (question : Text) (top_k : Option ℕ) (filters : Option SearchFilters) (w : W)
      (a : AgentResult)
      → given w ≡ []
      → (run env question top_k filters w).0 ≡ ok a
      → IsGrounded env.settings.max_agent_steps
          (given (run env question top_k filters w).1)
          (said (run env question top_k filters w).1)
          a
  unfolding run
  run-IsGrounded question top_k filters w a start h =
      answer_of-IsGrounded (events env question top_k filters (new_session env w))
        ((events-Triple log (any_collaborators env) question top_k filters).at _
          (new_session-Sound w start))
        h

  -- Where every collaborator answers, tool calls fail by tool errors alone, the chunks of tool outcomes
  -- can be read, and the world records what the model said last and the chunks that retrievals and
  -- tool calls gave, a run returns, however many tool calls fail or repeat, and its answer rests on
  -- that text and on these chunks.
  pub run-total :
      (question : Text) (top_k : Option ℕ) (filters : Option SearchFilters) (w : W)
      → given w ≡ []
      → Reliable env
      → (a : AgentResult) × ((run env question top_k filters w).0 ≡ ok a)
        × IsGrounded env.settings.max_agent_steps
            (given (run env question top_k filters w).1)
            (said (run env question top_k filters w).1)
            a
  unfolding run
  run-total question top_k filters w start r =
      answer_of-total (events env question top_k filters (new_session env w)) (
        (events-Triple log (reliable_collaborators env r) question top_k filters).at _
          (new_session-Sound w start))
