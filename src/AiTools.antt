-- ===== src/AiTools.antt =====
-- The identity that the onboarded tools share (src/ai_tools).
pub mod Idp
pub mod Token
pub mod Credential
