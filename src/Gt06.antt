-- ===== src/Gt06.antt =====
-- gateway/libs/herald: the GT06 tracker protocol, its parser (gt06_parser.h, gt06_parser.cpp) and
-- the listener that runs it on a connection (gt06_tcp_server.cpp).
pub mod Types
pub mod Crc
pub mod Content
pub mod Frame
pub mod Ack
pub mod Server
mod Tests
