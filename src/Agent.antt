-- ===== src/Agent.antt =====
-- src/app/agent.
pub mod Registry
pub mod Citations
pub mod Generation
pub mod Guardrails
pub mod Prompts
pub mod Events
pub mod Session
pub mod Extract
pub mod ToolRun
pub mod Orchestrator
pub mod Consumer
pub mod Grounded
pub mod Watched
pub mod Faithfulness
pub mod Tests
