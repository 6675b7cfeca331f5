-- ===== src/Kernel.antt =====
-- internal/kernel: the service that runs turns.
pub mod Turns
