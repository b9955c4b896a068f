-- ===== src/Tests.antt =====
-- Runs of the model at concrete inputs, and the theorems at inputs that meet their hypotheses.
mod Sample
mod Store
mod Failures
mod Files
mod Requests
mod Buffers
mod Pools
mod Clocks
mod Events
mod Threads
mod Rounds
mod Logs
mod Posts
mod Visits
mod Logged
mod Stops
