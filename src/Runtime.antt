-- ===== src/Runtime.antt =====
-- The governed runtime: the execution token, the contract of a step, and the engine.
pub mod Token
pub mod Context
pub mod Contract
pub mod Registry
pub mod Selection
pub mod Engine
pub mod Stabilizer
pub mod Redaction
pub mod Handlers
