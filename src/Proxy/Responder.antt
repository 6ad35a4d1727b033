-- ===== src/Proxy/Responder.antt =====
-- src/proxy/responder.rs: recognising probes and answering them.
pub mod Qname
pub mod Query
pub mod Detect
pub mod Answers
pub mod Sip
pub mod Response
mod Tests
