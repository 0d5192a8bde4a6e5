-- ===== src/Examples.antt =====
-- Small concrete arrays, kernels, streams and messages, and the theorems at work on them.
pub mod Wire
pub mod Arrays
mod Streams
mod Messages
pub mod Sessions
pub mod Pollers
mod Clients
mod Timers
mod Replies
mod Managers
mod Schedules
mod Descriptors
mod Tests
