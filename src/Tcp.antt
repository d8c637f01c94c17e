-- ===== src/Tcp.antt =====
-- The TCP layer: ethox/src/layer/tcp.
pub mod Types
pub mod Segments
pub mod Window
pub mod Acks
pub mod Opening
pub mod Ingress
pub mod Egress
pub mod Machine
