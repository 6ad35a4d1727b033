-- ===== src/Wg.antt =====
-- src/wg: the AmneziaWG parameters and the configuration that is made of them.
pub mod Params
pub mod InitSpec
pub mod Splits
pub mod Generate
pub mod Store
