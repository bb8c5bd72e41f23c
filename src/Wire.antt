-- ===== src/Wire.antt =====
-- Packets as bytes: integers in network byte order, the Internet checksum, and the formats of TCP
-- segments, IPv4 datagrams, Ethernet frames and ARP messages.
pub mod Parser
pub mod Bytes
pub mod Buffer
pub mod Checksum
pub mod Segment
pub mod TcpSegment
pub mod Ipv4
pub mod Datagram
pub mod Ethernet
pub mod Arp
mod Examples
