-- ===== src/Tcp.antt =====
-- The TCP endpoint: libsponge/tcp_receiver, tcp_sender, tcp_connection, and their helpers.
pub mod Segment
pub mod Config
pub mod Receiver
pub mod Timer
pub mod Sender
pub mod State
pub mod Connection
