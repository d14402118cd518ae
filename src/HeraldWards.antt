-- ===== src/HeraldWards.antt =====
-- HeraldWardManager of gateway/libs/herald: the wards that report by Herald messages.
pub mod Manager
pub mod System
pub mod Announce
pub mod Silence
pub mod Repeat
mod Tests
