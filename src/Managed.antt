-- ===== src/Managed.antt =====
-- The containers on external memory of ethox/src/managed/.
pub mod Partial
pub mod Slotmap
pub mod Ordered
