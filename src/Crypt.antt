-- ===== src/Crypt.antt =====
-- kernel/src/crypt.
pub mod Random
