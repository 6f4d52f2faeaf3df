-- ===== src/Mcp.antt =====
-- internal/mcp: the clients of the servers of the Model Context Protocol, and what is known of these.
pub mod Cache
pub mod Manager
