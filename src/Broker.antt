-- ===== src/Broker.antt =====
-- The credential broker (src/broker): who may ask it, what it holds and serves, and its keys.
pub mod Caller
pub mod Types
pub mod Key
pub mod Host
pub mod Hold
pub mod Bearers
pub mod Issue
pub mod Serve
pub mod Switch
pub mod Session
pub mod Held
pub mod Tests
