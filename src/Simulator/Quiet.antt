-- ===== src/Simulator/Quiet.antt =====
-- The rounds of apps/network_simulator.cc once nothing is on its way.
use sponge_2021fall.Common.{ℕ, ◌≡◌, ◌<◌, some, [], length}
use sponge_2021fall.Common.Assoc.{Assoc, find}
use sponge_2021fall.Link.Router.{AsyncInterface}
use sponge_2021fall.Link.Router.Quiet.{IsIdle, AllIdle}
use sponge_2021fall.Simulator.Host.{Host}
use sponge_2021fall.Simulator.Network.{
  Network, applesauce, default_router, cherrypie, hs_router, dm42, dm43,
}

-- Without the frames that it sends.
abbrev bare : AsyncInterface → AsyncInterface
bare i = record i { base = record (i.base) { frames_out = [] } }

-- A host under its name, at which nothing waits.
pub record IdleHost (hosts : Assoc Host) (name : ℕ) : Type 0 where
  pub there : Host
  pub entry : find name hosts ≡ some there
  pub name_eq : there.name ≡ name
  pub idle : IsIdle there.interface

-- Nothing is on its way: no datagram and no frame waits at an interface of the router or of a host,
-- each of which is there under its name.
pub record IsQuiet (net : Network) : Type 0 where
  pub routers : AllIdle net.router.interfaces
  pub default_id : net.default_id < length net.router.interfaces
  pub eth0_id : net.eth0_id < length net.router.interfaces
  pub eth2_id : net.eth2_id < length net.router.interfaces
  pub hs4_id : net.hs4_id < length net.router.interfaces
  pub uun3_id : net.uun3_id < length net.router.interfaces
  pub default_host : IdleHost net.hosts default_router
  pub applesauce_host : IdleHost net.hosts applesauce
  pub cherrypie_host : IdleHost net.hosts cherrypie
  pub hs_host : IdleHost net.hosts hs_router
  pub dm42_host : IdleHost net.hosts dm42
  pub dm43_host : IdleHost net.hosts dm43
