-- ===== src/Examples.antt =====
-- Tests of the definitions, and the theorems at concrete inputs.
mod Queue
mod Network
mod Sessions
mod Steps
mod Clients
mod Workers
mod Tasks
mod Locks
mod Holders
mod Terminals
mod Start
mod System
mod Config
