-- ===== src/Registry.antt =====
-- FleetManager of gateway/libs/fleet: the saved fleets and the zones.
pub mod Types
pub mod Fleets
pub mod Zones
pub mod Snapshot
