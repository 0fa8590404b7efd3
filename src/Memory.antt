-- ===== src/Memory.antt =====
-- kernel/src/memory: the physical, virtual and heap memory managers.
pub mod Layout
pub mod Physical
pub mod Heap
pub mod Virtual
pub mod Map
