-- ===== src/Channel.antt =====
-- internal/channel: chats of other services that are bound to sessions.
pub mod Pairings
