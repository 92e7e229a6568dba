-- ===== src/Backends.antt =====
-- Package `backends`: the interface of an object store, and its implementations.
pub mod Provider
pub mod Mirrored
pub mod Sending
pub mod Gcs
pub mod RustFs
