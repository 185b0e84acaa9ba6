-- ===== src/Messages.antt =====
-- The calls between nodes of src/communication/message_passing.py, and the ping of
-- src/nodes/base_node.py. What the HTTP library makes of a request is an argument.
pub mod Calls
pub mod Broadcast
pub mod Base
mod Tests
