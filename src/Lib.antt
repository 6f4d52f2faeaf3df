-- ===== src/Lib.antt =====
-- ClawHermes-AI-Go is a multi-tenant platform for AI agents, written in Go. This library models the
-- parts that carry logic of their own, as functions on explicit state, and relates them to independent
-- descriptions of what they do. Paths are from the repository's root.
--
-- The parts, and the modules that stand for them:
--   - SkillGateway is internal/skillgateway. Breaker is circuit_breaker.go: a manager of one breaker for
--     each skill (`allow`, `record_success` and `record_failure` are its methods). Registry is
--     provider.go, which routes a skill ID to a provider. Atomic is atomic.go: `execute` resolves the
--     skill, asks the breaker, runs the attempts with their backoff, and records the outcome with the
--     breaker, the metrics and the auditor. Pipeline is pipeline.go, whose steps call the atomic engine,
--     and Pipeline/Builder is pipeline_builder.go. Types is types.go.
--   - CapGateway is internal/capgateway: types.go and gateway.go, with LlmAdapter and SkillAdapter for the
--     files of their names. `route` validates a request and hands it to the adapter of its type.
--   - LlmGateway is internal/llmgateway: Gateway is gateway.go and config.go, Types its data, and
--     TenantCache is tenant_cache.go.
--   - Agent is internal/agent: Graph is graph/graph.go (`compile` and `invoke`), Retry is graph/retry.go,
--     and React is graph/react.go, whose nodes call the capability gateway, with retries for the language
--     model, and run on the graph. Of a2a, Negotiation, Orchestrator and Discovery are the files of their
--     names.
--   - Skill is internal/skill: Semaphore is semaphore.go, and Analyzer is analyzer.go, which uses the search
--     of texts of TextChunk. Skill/Registry is internal/orchestrator/registry.go.
--   - Mcp is internal/mcp: Cache is cache.go, and Manager is client_manager.go, which fills the cache.
--   - Harness is internal/harness: harness.go, with Components for component.go.
--   - TextChunk is internal/textchunk/chunker.go: Sentences is the sentence splitter, Windows is
--     `ChunkText`, which asks it for boundaries, Paragraphs is `ChunkByParagraphs`, Breaks is
--     `ChunkBySemanticBreaks`, and Breaks/Smart is `SmartChunk`, which chooses among them. Runes is what these
--     use of Go's strings and runes.
--   - Memory is internal/memory: Buffer is the buffer and the window of short_term.go, Matching its
--     match of queries.
--   - Base holds Boolean tests, lists on the native numbers, maps, signed integers and equivalences.
--
-- State and time: a method that changes an object takes it and returns it. Where a mutex is held for the
-- whole body of a method, what concurrent callers do is a list of operations, in the order in which they
-- take the mutex. The semaphore has no mutex: there a state holds all calls that are under way, and a step
-- is what one goroutine does at once. What the outside answers in a run of the agent is a function of the
-- number of the step and the attempt, or of the number of the tool call. The clock, generated IDs,
-- contexts, providers, nodes and language models are arguments. Durations and times are natural
-- numbers of nanoseconds. Go's `int` is a natural number, or ℤ where the code tests its
-- sign; the values stay far from the 64-bit bounds, so nothing wraps.
-- A map is an association list whose order stands for the order of `range`, which Go leaves open; where
-- the order matters it is a parameter: the first key in the MCP cache, and in the harness a list of names
-- for each loop. The discovery of agents, whose index and table point to the same peers, has a heap.
--
-- Fuel: the loop of `ChunkText` runs on fuel, and `running` is the result where it has not ended. The loop
-- over one separator in `ChunkBySemanticBreaks` runs on more fuel than the text has bytes, of which each
-- round but the last uses up one or more. The analyzer's search for an identifier has a round more than
-- the code has bytes, and each round moves its start on. Every other loop is structural: the attempts
-- and the steps of a graph on their own bounds, all others on a list.
--
-- Not modelled: the summary memory, log lines and measured durations; the services around the agent
-- loop, the executors of skills, the rows of the database; and HTTP handlers, database and vector
-- stores, processes and the clients of language models, which are input and output.
pub mod Base
pub mod SkillGateway
pub mod CapGateway
pub mod LlmGateway
pub mod Agent
pub mod Skill
pub mod Mcp
pub mod Harness
pub mod TextChunk
pub mod Memory
