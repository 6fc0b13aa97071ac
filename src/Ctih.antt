-- ===== src/Ctih.antt =====
-- tools/hpl-agent/hpl_agent/ctih: sub-tokens derived from a parent's token, the scheduler that
-- charges what their holders consume, and the session of a child agent.
pub mod TokenTree
pub mod Scheduler
pub mod Child
pub mod Attenuation
pub mod Budgets
pub mod Turns
