-- ===== src/Klink.antt =====
-- The peer-to-peer home agent under dnsgw_test_ha/klink.
pub mod Codec
pub mod OverlayId
pub mod HostAddress
pub mod LookupTable
pub mod Message
pub mod Dll
pub mod Cache
pub mod NextHop
pub mod Plexus
pub mod Samples
mod Tests
