-- ===== src/Server.antt =====
-- The API server of src/main.py: its routes and handlers on the node's components, behind the middleware
-- of security/tls_manager.py.
pub mod Routes
pub mod State
pub mod Handlers
pub mod Serve
pub mod Guard
pub mod Trail
mod Tests
