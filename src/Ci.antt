-- ===== src/Ci.antt =====
-- tools/hpl-agent/hpl_agent/ci: the evidence of an agent's turns.
pub mod Merkle
pub mod Chain
