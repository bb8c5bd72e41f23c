-- ===== src/TcpSpongeSocket.antt =====
-- `TCPSpongeSocket` of libsponge/tcp_helpers/tcp_sponge_socket.hh and .cc: the thread that runs a
-- connection between a datagram adapter and a local stream socket.
pub mod Base
pub mod Rules
pub mod Life
pub mod Outbound
pub mod Inbound
pub mod Segments
pub mod Opening
pub mod Busy
pub mod Drivers
pub mod Clients
pub mod Abort
mod Examples
