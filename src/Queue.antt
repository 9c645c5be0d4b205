-- ===== src/Queue.antt =====
-- The on-disk queue of agent/src/queue.rs.
pub mod Name
pub mod Entry
pub mod Disk
pub mod Sorting
pub mod Listing
pub mod Operations
pub mod Dropping
pub mod Expiry
pub mod Writing
pub mod Sequence
pub mod Enqueue
pub mod Calm
pub mod Stored
pub mod Limits
pub mod Offered
pub mod Draining
pub mod Rounds
pub mod Passes
pub mod Drain
pub mod Delivery
pub mod Opening
mod Examples
