-- ===== src/LlmGateway.antt =====
-- internal/llmgateway: the gateway to the language models, and its cache by tenant.
pub mod Types
pub mod Gateway
pub mod TenantCache
