-- ===== src/Raft.antt =====
-- The Raft node of src/consensus/raft.py. `State` has its data and `_step_down`; a module for each
-- group of methods follows, and the modules below those prove what they do.
pub mod State
pub mod Vote
pub mod Election
pub mod Append
pub mod Replicate
pub mod Apply
pub mod Client
pub mod Steps
pub mod Terms
pub mod Merge
pub mod Follower
pub mod Commit
pub mod Applied
pub mod Majority
pub mod Elected
pub mod Steady
pub mod Safety
pub mod Leaders
pub mod Committing
pub mod Replicated
pub mod Matching
mod Tests
