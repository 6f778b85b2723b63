-- ===== src/Core/Codec.antt =====
-- crates/dlep-core/src/codec.rs.
pub mod Raw
pub mod Slices
pub mod Encode
pub mod Decode
pub mod Frame
pub mod Wire
pub mod RoundTrip
