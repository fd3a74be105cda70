-- ===== src/Workers.antt =====
-- src/relay/workers: the four background processes, one iteration of each loop, and the pool of the
-- dispatcher.
pub mod Dispatcher
pub mod Reaper
pub mod Relay
pub mod Scheduler
pub mod Pipeline
