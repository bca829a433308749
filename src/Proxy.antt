-- ===== src/Proxy.antt =====
-- The proxy: a local port for each capability that a client opened (djinn/crates/coordin8-proxy/src).
pub mod Manager
pub mod Ports
pub mod Listeners
pub mod Service
mod Tests
