-- ===== src/Queue.antt =====
-- The queue of src/nodes/queue_node.py, on a Redis store that is a parameter.
pub mod Keys
pub mod Store
pub mod Message
pub mod Node
pub mod Redeliver
pub mod Reads
pub mod Stored
pub mod Kept
pub mod Tasks
pub mod Order
pub mod Produce
pub mod Status
pub mod Tests
