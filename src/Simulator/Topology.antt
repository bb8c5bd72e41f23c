-- ===== src/Simulator/Topology.antt =====
-- The constructor of `Network` and the runs of `network_simulator` in apps/network_simulator.cc. The
-- generator's words for the n-th address are `words n`, and the payloads are arguments.
use sponge_2021fall.Common.{ℕ, ◌+◌, ◌-◌, ◌*◌, none, some, List, [], Result, ok, ◌>>=◌}
use sponge_2021fall.Common.Assoc.{Assoc, insert}
use sponge_2021fall.Address.{Address}
use sponge_2021fall.Wire.Datagram.{Ipv4Datagram}
use sponge_2021fall.Link.Interface
use sponge_2021fall.Link.Router.{AsyncInterface, Router, add_interface, add_route}
use sponge_2021fall.Simulator.Addresses.{
  random_host_ethernet_address, random_router_ethernet_address,
}
use sponge_2021fall.Simulator.Host.{Host, send_to, expect}
use sponge_2021fall.Simulator.Host
use sponge_2021fall.Simulator.Network.{
  Network, host, set_host, simulate, applesauce, default_router, cherrypie, hs_router, dm42, dm43,
}

-- The address that is written a.b.c.d.
abbrev pub ip : ℕ → ℕ → ℕ → ℕ → ℕ
ip a b c d = ((a * 256 + b) * 256 + c) * 256 + d

abbrev pub address : ℕ → ℕ → ℕ → ℕ → Address
address a b c d = record { ip = ip a b c d; port = 0 }

-- An interface of the router.
abbrev pub router_interface : List ℕ → Address → AsyncInterface
router_interface words ip_address = record {
  base = Interface.init (random_router_ethernet_address words) ip_address;
  datagrams_out = [];
}

-- The interfaces of the router, with their indices.
unfoldable pub with_interfaces : (ℕ → List ℕ) → Network
with_interfaces words =
    let empty : Router = record { interfaces = []; rule_list = [] } in
    let (default_id, r0) =
      add_interface empty (router_interface (words 0) (address 171 67 76 46)) in
    let (eth0_id, r1) = add_interface r0 (router_interface (words 1) (address 10 0 0 1)) in
    let (eth1_id, r2) = add_interface r1 (router_interface (words 2) (address 172 16 0 1)) in
    let (eth2_id, r3) = add_interface r2 (router_interface (words 3) (address 192 168 0 1)) in
    let (uun3_id, r4) = add_interface r3 (router_interface (words 4) (address 198 178 229 1)) in
    let (hs4_id, r5) = add_interface r4 (router_interface (words 5) (address 143 195 0 2)) in
    let (mit5_id, r6) = add_interface r5 (router_interface (words 6) (address 128 30 76 255)) in
    record {
      router = r6;
      default_id = default_id;
      eth0_id = eth0_id;
      eth1_id = eth1_id;
      eth2_id = eth2_id;
      uun3_id = uun3_id;
      hs4_id = hs4_id;
      mit5_id = mit5_id;
      hosts = [];
    }

unfoldable pub add_host : ℕ → Address → Address → List ℕ → Assoc Host → Assoc Host
add_host name my_address next_hop words hosts =
    insert name (Host.init name my_address next_hop (random_host_ethernet_address words)) hosts

unfoldable pub with_hosts : (ℕ → List ℕ) → Network → Network
with_hosts words net = record net {
  hosts = add_host dm43 (address 198 178 229 43) (address 198 178 229 1) (words 12) (
      add_host dm42 (address 198 178 229 42) (address 198 178 229 1) (words 11) (
        add_host hs_router (address 143 195 0 1) (address 0 0 0 0) (words 10) (
          add_host cherrypie (address 192 168 0 2) (address 192 168 0 1) (words 9) (
            add_host default_router (address 171 67 76 1) (address 0 0 0 0) (words 8)
              (add_host applesauce (address 10 0 0 2) (address 10 0 0 1) (words 7) [])))));
}

unfoldable pub with_routes : Address → Address → Network → Router
with_routes default_address hs_address net =
    let r0 = add_route net.router (ip 0 0 0 0) 0 (some default_address) net.default_id in
    let r1 = add_route r0 (ip 10 0 0 0) 8 none net.eth0_id in
    let r2 = add_route r1 (ip 172 16 0 0) 16 none net.eth1_id in
    let r3 = add_route r2 (ip 192 168 0 0) 24 none net.eth2_id in
    let r4 = add_route r3 (ip 198 178 229 0) 24 none net.uun3_id in
    let r5 = add_route r4 (ip 143 195 0 0) 17 (some hs_address) net.hs4_id in
    let r6 = add_route r5 (ip 143 195 128 0) 18 (some hs_address) net.hs4_id in
    let r7 = add_route r6 (ip 143 195 192 0) 19 (some hs_address) net.hs4_id in
    add_route r7 (ip 128 30 76 255) 16 (some (address 128 30 0 1)) net.mit5_id

-- `Network()`
unfoldable pub init : (ℕ → List ℕ) → Result Network
init words =
    let net = with_hosts words (with_interfaces words) in
    host net default_router >>= λ (d : Host). host net hs_router >>= λ (h : Host).
    ok (record net { router = with_routes d.my_address h.my_address net })

-- The datagram with its time to live counted down, `dgram_sent.header().ttl--`.
abbrev pub expected : Ipv4Datagram → Ipv4Datagram
expected dgram = record dgram { header = record (dgram.header) { ttl = dgram.header.ttl - 1 } }

abbrev pub default_ttl : ℕ
default_ttl = 64

-- A run in which `src` sends to an address and `dst` is to receive.
unfoldable pub transfer : ℕ → Address → ℕ → List ℕ → Network → Result Network
transfer src destination dst payload net = host net src >>= λ (h : Host).
    send_to h destination default_ttl payload >>= λ (s : Ipv4Datagram × Host).
    (let net' : Network = record net { hosts = set_host net.hosts src s.1 } in
      host net' dst >>= λ (k : Host).
      simulate (record net' { hosts = set_host net'.hosts dst (expect k (expected s.0)) }))

-- A run in which nothing is to be received.
unfoldable pub expire : ℕ → Address → ℕ → List ℕ → Network → Result Network
expire src destination ttl payload net = host net src >>= λ (h : Host).
    send_to h destination ttl payload >>= λ (s : Ipv4Datagram × Host).
    simulate (record net { hosts = set_host net.hosts src s.1 })

-- `network_simulator`
unfoldable pub network_simulator : (ℕ → List ℕ) → (ℕ → List ℕ) → Result Network
network_simulator words payload = init words >>= λ (n : Network). host n cherrypie >>= λ (c : Host).
    transfer applesauce c.my_address cherrypie (payload 0) n >>= λ (n : Network).
    host n applesauce >>= λ (a : Host).
    transfer cherrypie a.my_address applesauce (payload 1) n >>= λ (n : Network).
    transfer applesauce (address 1 2 3 4) default_router (payload 2) n >>= λ (n : Network).
    transfer applesauce (address 143 195 131 17) hs_router (payload 3) n >>= λ (n : Network).
    transfer cherrypie (address 143 195 193 52) hs_router (payload 4) n >>= λ (n : Network).
    transfer cherrypie (address 143 195 223 255) hs_router (payload 5) n >>= λ (n : Network).
    transfer cherrypie (address 143 195 224 0) default_router (payload 6) n >>= λ (n : Network).
    host n dm43 >>= λ (d : Host). transfer dm42 d.my_address dm43 (payload 7) n >>= λ (n : Network).
    expire applesauce (address 1 2 3 4) 1 (payload 8) n >>= λ (n : Network).
    expire applesauce (address 1 2 3 4) 0 (payload 9) n
