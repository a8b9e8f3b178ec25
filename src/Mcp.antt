-- ===== src/Mcp.antt =====
-- src/mcp: the tools of the Gateway's MCP servers, as the relay's daemon serves them.
pub mod Verdict
pub mod Catalog
pub mod Slots
pub mod Service
pub mod Stdio
