-- ===== src/Core.antt =====
-- crates/dlep-core: the wire types, the data items and the byte-level codec.
pub mod Ids
pub mod Mac
pub mod Status
pub mod Metrics
pub mod Error
pub mod Ipnet
pub mod Utf8
pub mod Item
pub mod Codec
