-- ===== src/Server.antt =====
-- Webserver.cpp: the handlers of the event loop, on the pool, the timers and one connection.
pub mod Events
pub mod Signals
pub mod Loop
pub mod Safe
pub mod Stops
pub mod Timers
pub mod Start
pub mod Reads
pub mod Closed
pub mod End
pub mod Visits
pub mod Posts
pub mod Clients
pub mod Logged
