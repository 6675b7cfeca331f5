-- ===== src/Agent.antt =====
-- internal/agent: the loop that runs a turn.
pub mod LoopGuard
