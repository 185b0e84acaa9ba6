-- ===== src/Ring.antt =====
-- The consistent hash ring of src/nodes/queue_node.py.
pub mod Hashing
pub mod Points
pub mod Moves
mod Tests
