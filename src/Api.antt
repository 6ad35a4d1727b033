-- ===== src/Api.antt =====
-- src/api: the HTTP handlers of the administration.
pub mod Login
pub mod Cidr
