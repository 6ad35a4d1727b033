-- ===== src/Proxy.antt =====
-- src/proxy: the UDP proxy that fronts the AmneziaWG port.
pub mod Params
pub mod Config
pub mod Settings
pub mod Supervisor
pub mod Packet
pub mod Echo
pub mod Transform
pub mod Session
pub mod Metrics
pub mod Responder
pub mod Call
