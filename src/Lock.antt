-- ===== src/Lock.antt =====
-- The lock manager of src/nodes/lock_manager.py: its data, the state machine that the Raft log drives,
-- the deadlock detection, and the calls of its clients.
pub mod State
pub mod Machine
pub mod Cycles
pub mod Deadlock
pub mod Api
pub mod Exclusion
pub mod Queue
pub mod Waiting
pub mod Victims
pub mod Gauge
pub mod Ending
pub mod Walks
pub mod Status
mod Tests
