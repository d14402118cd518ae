-- ===== src/Missions.antt =====
-- WardMission of gateway/libs/ward: missions to and from the autopilot, their passes, and the jobs.
pub mod Types
pub mod Plan
pub mod Passes
pub mod Worker
pub mod Validity
pub mod RoundTrip
pub mod Progress
pub mod Flight
mod Tests
