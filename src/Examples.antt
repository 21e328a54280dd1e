-- ===== src/Examples.antt =====
-- The theorems about the set-up, the threads, the packets and the connection at concrete inputs, with
-- the values that they share in Samples.
pub mod Samples
mod Runner
mod Server
mod System
mod Session
mod Setup
mod Startup
