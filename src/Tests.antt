-- ===== src/Tests.antt =====
-- A concrete platform, and the theorems at concrete inputs.
mod Toy
mod Data
mod Server
mod Connection
mod Programs
mod Source
mod System
mod Traces
mod Locks
mod Quotes
mod Turns
mod Simulated
