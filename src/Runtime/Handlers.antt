-- ===== src/Runtime/Handlers.antt =====
-- src/hpl/runtime/effects/handlers.py: what the steps of a plan do. Handlers/Io and Handlers/Net
-- are the two lanes to the outside; Handlers/Files has the handlers that only read and write files.
pub mod Paths
pub mod Action
pub mod Sanitize
pub mod Adapters
pub mod Policy
pub mod Request
pub mod Artifacts
pub mod Net
pub mod Io
pub mod Calls
pub mod Files
pub mod Gate
pub mod Reconcile
pub mod Agent
pub mod Runs
