-- ===== src/Http.antt =====
-- pkg/http: the HTTP proxy.
pub mod Pool
pub mod Selector
pub mod Transport
pub mod Proxy
pub mod Manager
