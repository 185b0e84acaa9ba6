-- ===== src/Cache.antt =====
-- The cache node of src/nodes/cache_node.py: its LRU store, the handlers of its protocol, and what
-- they do alone and among peers.
pub mod Lru
pub mod Node
pub mod Order
pub mod Calls
pub mod Found
pub mod Reads
pub mod Writes
pub mod Peers
pub mod Counted
pub mod Status
mod Tests
