-- ===== src/Ztunnel.antt =====
-- pkg/accesslog/collector/ztunnel and pkg/tools/ztunnel: the identities that a probe in ztunnel
-- finds in a ConnectionResult.
pub mod Integers
pub mod Offsets
pub mod Strings
pub mod Decode
pub mod Compact
pub mod Labels
pub mod Spiffe
pub mod Correlation
pub mod Calibration
pub mod Source
