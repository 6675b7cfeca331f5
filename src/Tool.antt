-- ===== src/Tool.antt =====
-- internal/tool: the parts of the built-in tools that compute.
pub mod Diff
pub mod Truncate
