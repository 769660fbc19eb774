-- ===== src/BytesCodec.antt =====
-- The checked big-endian primitives of crates/foundation/bytes-codec/src/lib.rs.
pub mod Reader
pub mod Writer
pub mod Fields
mod Tests
