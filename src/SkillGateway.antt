-- ===== src/SkillGateway.antt =====
-- internal/skillgateway: the unified entry to skills.
pub mod Types
pub mod Breaker
pub mod Registry
pub mod Atomic
pub mod Pipeline
