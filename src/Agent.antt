-- ===== src/Agent.antt =====
-- internal/agent: the graph engine of the agents, the agent loop that runs on it, its retries, and the
-- negotiation and orchestration of tasks, and the index of the agents.
pub mod Graph
pub mod Retry
pub mod React
pub mod Negotiation
pub mod Orchestrator
pub mod Discovery
