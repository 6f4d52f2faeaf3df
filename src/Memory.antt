-- ===== src/Memory.antt =====
-- internal/memory: the memories of a conversation.
pub mod Matching
pub mod Buffer
