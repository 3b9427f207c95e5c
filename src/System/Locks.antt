-- ===== src/System/Locks.antt =====
-- The locks of the server, and the threads that take them.
pub mod Defs
pub mod Agrees
pub mod Walk
mod Guard
mod Ending
pub mod Held
pub mod Implements
mod Kept
mod Search
mod Total
pub mod Invariant
pub mod Sets
pub mod Received
pub mod Refined
pub mod Work
pub mod Progress
