-- ===== src/Util.antt =====
-- kernel/src/util.
pub mod Text
pub mod Bits
pub mod State
pub mod Screen
pub mod Panic
