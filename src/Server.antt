-- ===== src/Server.antt =====
-- src/quote_server.rs: the state of the server and its methods. The children hold the loading of the
-- configuration, the update of the quotes, the background thread, and the proofs.
pub mod State
pub mod Config
pub mod Registry
pub mod Update
pub mod Background
pub mod Handles
