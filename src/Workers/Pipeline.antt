-- ===== src/Workers/Pipeline.antt =====
-- The four workers at work together: their steps in any order.
pub mod Attempted
pub mod Ended
pub mod Tracked
pub mod Steps
pub mod Sending
pub mod Settling
pub mod Restarting
pub mod Safe
pub mod Relaying
pub mod Withdrawing
pub mod Writing
pub mod Lossless
