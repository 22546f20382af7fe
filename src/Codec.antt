-- ===== src/Codec.antt =====
-- crates/db/src/encode.rs and crates/shared/src/util.rs: selector blobs, hexadecimal text and names.
pub mod Selectors
pub mod Hex
pub mod Idents
