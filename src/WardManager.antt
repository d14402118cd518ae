-- ===== src/WardManager.antt =====
-- WardManager of gateway/libs/ward: the wards behind MAVLink autopilots.
pub mod Types
pub mod Sections
pub mod Locks
pub mod Lifecycle
pub mod Grounded
pub mod Landing
pub mod Roster
pub mod Routing
pub mod Requests
pub mod Fence
pub mod Publishing
mod TestYaml
mod Tests
mod TestRouting
mod TestRequests
