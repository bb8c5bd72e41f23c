-- ===== src/Simulator/Built.antt =====
-- The network that apps/network_simulator.cc constructs.
use sponge_2021fall.Common.{ℕ, refl, arith, List, Yields}
use sponge_2021fall.Common.Assoc.{find, insert}
use sponge_2021fall.Link.Router.{add_interface, add_route}
use sponge_2021fall.Simulator.Host
use sponge_2021fall.Simulator.Network.{Network, host, named}
use sponge_2021fall.Simulator.Topology.{init, with_interfaces, with_hosts, with_routes, add_host}
use sponge_2021fall.Link.Router.Queues.{Ready}

-- Whatever Ethernet addresses the generator gives, the network is constructed without an exception:
-- the two routers that the routes name are found. Its router is ready to route, each of its rules
-- naming an interface that is there.
pub init-Ready : (words : ℕ → List ℕ) → Yields (λ (net : Network). Ready net.router) (init words)
unfolding init host named with_interfaces with_hosts with_routes add_host add_interface add_route
    find insert Host.init
init-Ready words = record {
  result = _;
  is_ok = refl;
  holds = record { rules = ground arith; sendable = ground arith };
}
