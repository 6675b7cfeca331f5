-- ===== src/Interaction.antt =====
-- internal/interaction: decisions that suspend a tool call.
pub mod Approval
pub mod Question
