-- ===== src/Fleet.antt =====
-- FleetManager of gateway/libs/fleet: fleets, zones, and the missions of several wards.
pub mod Messages
pub mod Effects
pub mod MissionStore
pub mod Missions
pub mod Outcomes
pub mod Dispatch
pub mod Create
pub mod Stop
pub mod Routes
pub mod Orphan
pub mod Events
pub mod Gate
pub mod Ends
pub mod Finish
pub mod Tests
