-- ===== src/Agent/Orchestrator/Rules.antt =====
-- How an invariant passes through the loop. `P n` may count the rounds: it holds before round `n`.
use native.Mathlib.Numerals.{unary_clauses}
use grounded_ops_agent.Agent.Events.{StopReason, answered, step_cap, token_budget}
use grounded_ops_agent.Agent.Guardrails.{can_afford}
use grounded_ops_agent.Agent.Orchestrator.{
  account, final_completion, finish_with, plan, answer_or_run, finish_or_plan, loop,
}
use grounded_ops_agent.Agent.Prompts.{agent_system}
use grounded_ops_agent.Agent.Session.{Environment, Session, Action, call}
use grounded_ops_agent.Agent.Session.Triples.{
  Triple, Triple-pure, Triple-gets, Triple-modify, Triple-bind, Triple-weaken,
}
use grounded_ops_agent.Agent.ToolRun.{run_tool, run_tools}
use grounded_ops_agent.Agent.ToolRun.Rules.{Frame, append_message-Keeps}
use grounded_ops_agent.Llm.Types.{ToolCall, ToolSpec, LlmMessage, LlmUsage, LlmResponse}
use grounded_ops_agent.Prelude.{
  ℕ, zero, suc, ◌+◌, ◌-◌, ◌≤◌, ◌<◌, ◌≡◌, refl, sym, ◌∙◌, subst, ◌≢◌, inl, inr, Bool, true, false,
  none, List, [], ◌∷◌, arith, Bool-cases, Text,
}

-- What the loop returns from round `step` on, with `left` rounds left.
pub record Outcome (left step : ℕ) (x : Text × StopReason × ℕ) : Type 0 where
  pub within : x.2 ≤ step + left
  pub capped : x.1 ≡ step_cap → x.2 ≡ step + left
  pub early : x.1 ≢ step_cap → x.2 < step + left

module _ {W : Type 0} (P D : ℕ → Session W → Type 0) where
  -- What holds behind the budget check.
  abbrev Budgeted : ℕ → Bool → Session W → Type 0
  Budgeted n true = D n
  Budgeted n false = P n

-- The parts of a round that an invariant may depend on: `C n p` holds behind the count of the tokens
-- that gave `p`, `D n` behind a budget check that passed, `T` of the text of a response until the next
-- call, and `E` where the loop raises.
pub record LoopRules {W : Type 0} (env : Environment W) (P : ℕ → Session W → Type 0)
    (C : ℕ → ℕ → Session W → Type 0) (D : ℕ → Session W → Type 0) (T : Text → Session W → Type 0)
    (E : Session W → Type 0) : Type 0 where
  pub frame : (n : ℕ) → Frame (P n)
  pub accounted :
      (t : Text) (s : Session W) (u : LlmUsage) (m : Text)
      → T t s
      → T t (record s { usage = u; model = m })
  pub later : (n : ℕ) (s : Session W) → P n s → P (suc n) s
  pub counted :
      (n : ℕ) (messages : List LlmMessage) (tools : List ToolSpec)
      → n ≤ env.settings.max_agent_steps
      → Triple (P n) (call (env.count_tokens messages agent_system tools)) (C n) E
  pub affordable : (n p : ℕ) (s : Session W) → C n p s → can_afford s.budget p ≡ true → D n s
  pub exhausted : (n p : ℕ) (s : Session W) → C n p s → can_afford s.budget p ≡ false → P n s
  pub planned :
      (n : ℕ) (tools : List ToolSpec)
      → n ≤ env.settings.max_agent_steps
      → Triple (D n) (plan env tools n) (λ r s. P (suc n) s × T r.text s) E
  pub finished :
      (n : ℕ) (messages : List LlmMessage)
      → n ≤ env.settings.max_agent_steps
      → Triple
          (P n)
          (call (env.complete agent_system messages none env.settings.max_output_tokens))
          (λ r s. P (suc n) s × T r.text s)
          E
  pub tool_run :
      (n : ℕ) (tc : ToolCall) (step : ℕ)
      → n ≤ env.settings.max_agent_steps + 1
      → Triple (P n) (run_tool env tc step) (λ _. P n) E

module _ {W : Type 0} {env : Environment W} {P : ℕ → Session W → Type 0}
    {C : ℕ → ℕ → Session W → Type 0} {D : ℕ → Session W → Type 0} {T : Text → Session W → Type 0}
    {E : Session W → Type 0} (rules : LoopRules env P C D T E) where
  open rules use {frame, accounted, counted, planned, finished, tool_run}

  run_tools-Keeps :
      (n : ℕ) (tcs : List ToolCall) (step : ℕ)
      → n ≤ env.settings.max_agent_steps + 1
      → Triple (P n) (run_tools env tcs step) (λ _. P n) E
  unfolding run_tools
  run_tools-Keeps n [] step h = Triple-pure _ (λ s p. p)
  run_tools-Keeps n (tc ∷ tcs) step h =
      Triple-bind _ _ (tool_run n tc step h) λ _. run_tools-Keeps n tcs step h

  finish_with-Triple :
      (reason : StopReason) (n : ℕ)
      → n ≤ env.settings.max_agent_steps
      → Triple
          (P n)
          (finish_with env reason n)
          (λ x s. (P (suc n) s × T x.0 s) × (x.1 ≡ reason) × (x.2 ≡ n))
          E
  unfolding finish_with final_completion account
  finish_with-Triple reason n h =
      Triple-bind {Q = λ r s. P (suc n) s × T r.text s} _ _
        (Triple-bind {Q = λ _. P n} _ _ (append_message-Keeps (frame n) _) λ _.
          Triple-bind {Q = λ _. P n} _ _ (Triple-gets _ (λ s p. p))
            λ messages. finished n messages h)
        λ final.
          Triple-bind {Q = λ _ s. P (suc n) s × T final.text s} _ _
            (Triple-modify _
              (λ s (p, t). ((frame (suc n)).usage s _ _ p, accounted final.text s _ _ t)))
            λ _. Triple-pure _ (λ s p. (p, refl, refl))

Outcome-here :
    (left n : ℕ) (x : Text × StopReason × ℕ) → x.1 ≢ step_cap → x.2 ≡ n → Outcome (suc left) n x
Outcome-here left n x h e = record {
  within = omega arith;
  capped = λ k. absurd (h k);
  early = λ k. omega arith;
}

Outcome-cap : (n : ℕ) (x : Text × StopReason × ℕ) → x.1 ≡ step_cap → x.2 ≡ n → Outcome 0 n x
Outcome-cap n x h e = record {
  within = omega arith;
  capped = λ k. omega arith;
  early = λ k. absurd (k h);
}

Outcome-next :
    (left n : ℕ) (x : Text × StopReason × ℕ) → Outcome left (n + 1) x → Outcome (suc left) n x
Outcome-next left n x o =
    let w = o.within in
    record {
      within = omega arith;
      capped = λ k. let e = o.capped k in omega arith;
      early = λ k. let e = o.early k in omega arith;
    }

token_budget-not-step_cap : token_budget ≢ step_cap
token_budget-not-step_cap e = cc

answered-not-step_cap : answered ≢ step_cap
answered-not-step_cap e = cc

module _ {W : Type 0} {env : Environment W} {P : ℕ → Session W → Type 0}
    {C : ℕ → ℕ → Session W → Type 0} {D : ℕ → Session W → Type 0} {T : Text → Session W → Type 0}
    {E : Session W → Type 0} (rules : LoopRules env P C D T E) where
  open rules use {frame, later, counted, affordable, exhausted, planned}

  later_by : (k n : ℕ) (s : Session W) → P n s → P (n + k) s
  later_by zero n s p = simp unary_clauses p
  later_by (suc k) n s p = simp unary_clauses (later (n + k) s (later_by k n s p))

  -- The count of the rounds may grow.
  up : {m n : ℕ} (s : Session W) → n ≤ m → P n s → P m s
  up {m} {n} s h p =
      let e : n + (m - n) ≡ m = omega arith in subst (λ k. P k s) e (later_by (m - n) n s p)

  Budgeted-here : (n p : ℕ) (s : Session W) → C n p s → Budgeted P D n (can_afford s.budget p) s
  Budgeted-here n p s c = elim (Bool-cases (can_afford s.budget p)) [
    | inl e ↦ subst (λ b. Budgeted P D n b s) (sym e) (affordable n p s c e)
    | inr e ↦ subst (λ b. Budgeted P D n b s) (sym e) (exhausted n p s c e)
  ]

  -- The postcondition of the loop with `left` rounds left.
  abbrev After : ℕ → ℕ → Text × StopReason × ℕ → Session W → Type 0
  After left n x s = P (n + left + 1) s × T x.0 s × Outcome left n x

  answer_or_run-Triple :
      (response : LlmResponse) (tcs : List ToolCall) (left n : ℕ)
      (next : Action W (Text × StopReason × ℕ))
      → n ≤ env.settings.max_agent_steps
      → Triple (P (n + 1)) next (After left (n + 1)) E
      → Triple
          (λ s. P (n + 1) s × T response.text s)
          (answer_or_run env response tcs n next)
          (After (suc left) n)
          E
  unfolding answer_or_run
  answer_or_run-Triple response [] left n next b h =
      Triple-pure _
        (λ s (p, t). (up s (omega arith) p, t, Outcome-here left n _ answered-not-step_cap refl))
  answer_or_run-Triple response (tc ∷ tcs) left n next b h =
      Triple-bind {Q = λ _. P (n + 1)} _ _
        (Triple-weaken (append_message-Keeps (frame (n + 1)) _) (λ s (p, t). p) (λ _ s p. p)
          (λ s p. p))
        λ _.
          Triple-bind {Q = λ _. P (n + 1)} _ _ (run_tools-Keeps rules (n + 1) _ n (omega arith))
            λ _.
              Triple-weaken h (λ s p. p)
                (λ x s (p, t, o). (up s (omega arith) p, t, Outcome-next left n x o)) (λ s p. p)

  finish_or_plan-Triple :
      (tools : List ToolSpec) (left n : ℕ) (next : Action W (Text × StopReason × ℕ)) (b : Bool)
      → n ≤ env.settings.max_agent_steps
      → Triple (P (n + 1)) next (After left (n + 1)) E
      → Triple (Budgeted P D n b) (finish_or_plan env tools n next b) (After (suc left) n) E
  unfolding finish_or_plan
  finish_or_plan-Triple tools left n next false b h =
      Triple-weaken (finish_with-Triple rules token_budget n b) (λ s p. p)
        (λ x s ((p, t), r, e). (
          up s (omega arith) p,
          t,
          Outcome-here left n x (λ k. token_budget-not-step_cap (sym r ∙ k)) e,
        ))
        (λ s p. p)
  finish_or_plan-Triple tools left n next true b h =
      Triple-bind {Q = λ r s. P (n + 1) s × T r.text s} _ _
        (Triple-weaken (planned n tools b) (λ s p. p) (λ _ s (p, t). (up s (omega arith) p, t))
          (λ s p. p))
        λ response. answer_or_run-Triple response response.tool_calls left n next b h

  -- The loop keeps what its rounds keep, and ends by the rounds it may take.
  pub loop-Triple :
      (tools : List ToolSpec) (left n : ℕ)
      → n + left ≤ env.settings.max_agent_steps
      → Triple (P n) (loop env tools left n) (After left n) E
  unfolding loop
  loop-Triple tools zero n b =
      Triple-weaken (finish_with-Triple rules step_cap n (omega arith)) (λ s p. p)
        (λ x s ((p, t), r, e). (up s (omega arith) p, t, Outcome-cap n x r e)) (λ s p. p)
  loop-Triple tools (suc left) n b =
      Triple-bind {Q = λ _. P n} _ _ (Triple-gets _ (λ s p. p)) λ messages.
        Triple-bind {Q = C n} _ _ (counted n messages tools (omega arith)) λ projected.
          Triple-bind {Q = Budgeted P D n} _ _
            (Triple-gets _ (λ s c. Budgeted-here n projected s c))
            λ paid.
              finish_or_plan-Triple tools left n _ paid (omega arith)
                (loop-Triple tools left (n + 1) (omega arith))
