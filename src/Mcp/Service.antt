-- ===== src/Mcp/Service.antt =====
-- src/mcp/service.rs: the requests that the daemon answers for an MCP client.
--
-- A method of `McpService` is an action over the service's own state, the world around it and the
-- record of what it did to that world. The world is a parameter, `Host`: the broker, the settings, the
-- clock, the Gateway, the switcher and the user, each answering as it likes at every call. While an
-- action awaits, the other tasks of the daemon may change the service's state as they like
-- (`meanwhile`). A refusal carries what its message is made of; the wording is not modelled.
pub mod Types
pub mod Host
pub mod Session
pub mod Tools
pub mod Switching
pub mod Requests
pub mod Calls
pub mod Switches
pub mod Acts
pub mod Frame
pub mod Coherence
pub mod Keeps
pub mod Tests
