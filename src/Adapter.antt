-- ===== src/Adapter.antt =====
-- The adapters between a connection and the network: TCP in IPv4 datagrams, TCP in UDP datagrams, and
-- random loss.
pub mod Base
pub mod OverIp
pub mod OverUdp
pub mod Lossy
pub mod OverTun
pub mod OverEthernet
mod Examples
