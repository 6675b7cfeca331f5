-- ===== src/Subagent.antt =====
-- internal/subagent: child agents.
pub mod Manager
