-- ===== src/Mcp/Stdio.antt =====
-- `relay mcp`, the MCP server on standard input and output that relays calls to the daemon
-- (src/mcp/stdio.rs, TOOL_NAMES of src/mcp/mod.rs).
--
-- The client behind rmcp, serde's decoding and the fresh request states are parameters. The daemon at the
-- other end of a connection is a tree: what it does next for each answer that it gets; it asks finitely
-- often. Other calls run while one waits. The wording of refusals that the server writes itself is left
-- out.
pub mod Types
pub mod Relay
pub mod Answers
pub mod Steps
pub mod Shown
pub mod Confirmed
pub mod Unsupported
pub mod Tests
