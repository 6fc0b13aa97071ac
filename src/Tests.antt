-- ===== src/Tests.antt =====
-- Runs of the definitions at concrete inputs, and the properties at such inputs.
mod Language
mod Agents
mod Engine
mod Selection
mod Planner
mod Evidence
mod Memory
mod Anchors
mod Redaction
mod Handlers
