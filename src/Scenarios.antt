-- ===== src/Scenarios.antt =====
-- Runs of the definitions on concrete inputs, and the theorems at them.
mod Codecs
mod Sessions
mod Threads
mod Masters
mod Clients
mod Negotiations
mod Requests
mod Setups
mod Halts
mod Lives
mod Demos
