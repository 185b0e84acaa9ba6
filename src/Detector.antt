-- ===== src/Detector.antt =====
-- The failure detector of src/communication/failure_detector.py: its state, and what it says of a peer.
pub mod State
pub mod Misses
pub mod Status
pub mod Reported
mod Tests
