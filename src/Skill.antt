-- ===== src/Skill.antt =====
-- internal/skill: the limits on skills that run at once, and the static analysis of their code; and
-- the registry of skills of internal/orchestrator.
pub mod Analyzer
pub mod Registry
pub mod Semaphore
