-- ===== src/Proxy.antt =====
-- crates/modeld-proxy: the HTTP server that shares a store on the local network.
pub mod Config
pub mod Range
pub mod Auth
pub mod Server
