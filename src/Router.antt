-- ===== src/Router.antt =====
-- The connection with the router: socket/socket_client.go and messages/api_client.go.
pub mod Frame
pub mod Heartbeat
pub mod Recovery
pub mod Reader
