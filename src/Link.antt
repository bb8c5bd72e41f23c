-- ===== src/Link.antt =====
-- The link layer: network interfaces with ARP, and the router between them.
pub mod Interface
pub mod Router
mod Examples
