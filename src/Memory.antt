-- ===== src/Memory.antt =====
-- tools/hpl-agent/hpl_agent/memory: the messages that an agent keeps.
pub mod Budget
pub mod Compressor
pub mod Manager
