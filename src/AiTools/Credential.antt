-- ===== src/AiTools/Credential.antt =====
-- The Gateway credential that the onboarded tools share (src/ai_tools/gateway_credential.rs): its data, its
-- renewal, its store and what the Gateway's replies are read as. The HTTP calls, the clock, the files and
-- serde_json are parameters.
pub mod Types
pub mod Fresh
pub mod Resolve
pub mod Issuing
pub mod Resolved
pub mod Keeping
pub mod Store
pub mod Upsert
pub mod Wire
pub mod Replies
pub mod Tests
