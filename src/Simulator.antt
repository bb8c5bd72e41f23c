-- ===== src/Simulator.antt =====
-- apps/network_simulator.cc: hosts and a router with their interfaces, and the wires between them.
pub mod Addresses
pub mod Host
pub mod Check
pub mod Private
pub mod Network
pub mod Exchange
pub mod Topology
pub mod Built
pub mod Quiet
mod Examples
