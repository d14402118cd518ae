-- ===== src/Gateway.antt =====
-- The gateway's main program: what it does with the bytes of a client.
pub mod Envelope
pub mod Viewer
pub mod Receive
pub mod Safety
pub mod Geofence
mod Tests
