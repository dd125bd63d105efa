-- ===== src/Client.antt =====
-- crates/wasm-client/src/lib.rs and the scripts that drive it, web/src/.
pub mod Errors
pub mod Address
pub mod Retrieval
pub mod Upload
pub mod Driver
pub mod Tests
