-- ===== src/Layer.antt =====
-- The layers above the wire formats: ethox/src/layer, but for the TCP connection.
pub mod Route
pub mod Neighbor
