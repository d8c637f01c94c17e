-- ===== src/Wire.antt =====
-- The wire formats: ethox/src/wire.
pub mod Seq
pub mod Flags
pub mod Repr
pub mod Checked
pub mod Bytes
pub mod Options
pub mod Checksum
pub mod Segment
pub mod Ip
pub mod Udp
pub mod Ipv4
