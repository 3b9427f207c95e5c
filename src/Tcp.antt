-- ===== src/Tcp.antt =====
-- src/tcp_server.rs: the handlers of the commands and the loop of a connection. The quote server is
-- behind the interface `Service`; `Implements` gives the real one.
pub mod Service
pub mod Handlers
pub mod Connection
pub mod Implements
pub mod Stream
pub mod Stop
pub mod KeepAlive
pub mod Silence
pub mod Kept
pub mod Reply
pub mod Session
pub mod Leaks
pub mod Live
pub mod Listener
