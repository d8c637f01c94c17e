-- ===== src/Storage.antt =====
-- The storage of ethox/src/storage/.
pub mod Assembler
pub mod Ring
