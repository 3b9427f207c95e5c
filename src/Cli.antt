-- ===== src/Cli.antt =====
-- bins/client/main.rs and bins/server/main.rs: the logger's level, the exchanges of the client with the
-- server, its console loop and its reconnection, and the start of the server.
pub mod Logger
pub mod Exchange
pub mod Console
pub mod ClientMain
pub mod Options
pub mod Pinger
pub mod KeepAlive
pub mod Protocol
pub mod Reconnection
pub mod Arrival
pub mod Delivery
pub mod ServerMain
pub mod UdpListener
