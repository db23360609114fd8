-- ===== src/Agent/Watched/Tests.antt =====
-- The scripted run, whose world counts the completions.
use grounded_ops_agent.Agent.Consumer.{run}
use grounded_ops_agent.Agent.Tests.{scripted}
use grounded_ops_agent.Agent.Watched.Completions.{Counts, run_completions}
use grounded_ops_agent.Prelude.{◌+◌, ◌≤◌, refl, none, arith}
use grounded_ops_agent.Text.Chars.{codes}

scripted-Counts : Counts scripted (λ w. w)
scripted-Counts = record {
  complete = λ m t w. omega arith;
  count_tokens = λ m t w. refl;
  retrieve = λ q k f w. refl;
  list_tools = λ w. refl;
  call_tool = λ n a t w. refl;
  perf_counter = λ w. refl;
}

run_completions_example :
    (run scripted (codes "why?") none none 0).1 ≤ 0 + (scripted.settings.max_agent_steps + 1)
run_completions_example =
    run_completions scripted (λ w. w) scripted-Counts (codes "why?") none none 0
