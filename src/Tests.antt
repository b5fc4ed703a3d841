-- ===== src/Tests.antt =====
-- Concrete states, and each theorem at one of them.
pub mod Samples
mod Queues
mod Paging
mod Scheduling
mod Locking
mod Messages
mod Files
mod Loading
mod Disks
mod Storing
mod Naming
mod Ending
