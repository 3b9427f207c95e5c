-- ===== src/System.antt =====
-- The running program: one quote server, its background thread, the connections and the threads of the
-- clients, interleaved in any order. Each step is one call under the lock that it takes: a round of a
-- connection of src/tcp_server.rs, a step of the loop of src/quote_server.rs, or one command of a
-- thread of src/client.rs.
mod Defs
pub mod Owned
pub mod Calls
pub mod Tick
pub mod Sound
pub mod Safety
pub mod Progress
unfoldable pub use Defs.*
pub mod Locks
pub mod Orphans
pub mod Program
