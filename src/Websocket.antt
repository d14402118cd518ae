-- ===== src/Websocket.antt =====
-- WebsocketTransport of gateway/libs/transport (websocket_transport.cpp): the address it binds to, and
-- the role of a client.
pub mod Bind
pub mod Role
mod Tests
