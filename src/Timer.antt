-- ===== src/Timer.antt =====
-- timer/timer.cpp: the timers of the connections.
pub mod Clock
pub mod Fired
pub mod Thread
pub mod Rounds
pub mod Stop
