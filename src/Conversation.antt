-- ===== src/Conversation.antt =====
-- internal/conversation: the messages of a session.
pub mod Message
pub mod Compaction
pub mod Cuts
pub mod Checkpoint
pub mod Planner
