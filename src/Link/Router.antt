-- ===== src/Link/Router.antt =====
-- libsponge/router.hh and .cc. What `add_route` prints is left out. A prefix length above 32 is a
-- shift that C++ does not define: `matches` is for lengths up to 32.
pub mod Longest
pub mod Prefix
pub mod Forwards
pub mod Routing
pub mod Sends
pub mod Queues
pub mod Quiet
use sponge_2021fall.Common.{
  ℕ, zero, suc, ◌+◌, ◌-◌, ◌/◌, ◌%◌, ◌^◌, bit_xor, Bool, true, false, ◌&&◌, ◌||◌, Option, none, some,
  List, [], ◌∷◌, ◌++◌, length, ltb, leb, ◌==◌, if◌then◌else◌, Result, ok, throw, out_of_range,
  ◌>>=◌,
}
use sponge_2021fall.Address.{Address, from_ipv4_numeric}
use sponge_2021fall.Wire.Ethernet.{EthernetFrame}
use sponge_2021fall.Wire.Datagram.{Ipv4Datagram}
use sponge_2021fall.Wire.Ipv4.{Ipv4Header}
use sponge_2021fall.Link.Interface.{NetworkInterface, send_datagram}
use sponge_2021fall.Link.Interface

-- `AsyncNetworkInterface`
pub record AsyncInterface : Type 0 where
  pub base : NetworkInterface
  pub datagrams_out : List Ipv4Datagram

unfoldable pub push_received : AsyncInterface → Option Ipv4Datagram → AsyncInterface
push_received a none = a
push_received a (some dgram) = record a { datagrams_out = a.datagrams_out ++ dgram ∷ [] }

-- `AsyncNetworkInterface::recv_frame`
unfoldable pub recv_frame : AsyncInterface → EthernetFrame → Result AsyncInterface
unfolding push_received
recv_frame a frame =
    Interface.recv_frame a.base frame >>= λ r. ok (push_received (record a { base = r.1 }) r.0)

pub record RouteRule : Type 0 where
  pub route_prefix : ℕ
  pub prefix_length : ℕ
  pub next_hop : Option Address
  pub interface_num : ℕ

pub record Router : Type 0 where
  pub interfaces : List AsyncInterface
  pub rule_list : List RouteRule

-- `Router::add_interface`, with the index that it returns.
unfoldable pub add_interface : Router → AsyncInterface → ℕ × Router
add_interface r i = (length r.interfaces, record r { interfaces = r.interfaces ++ i ∷ [] })

-- `Router::add_route`
unfoldable pub add_route : Router → ℕ → ℕ → Option Address → ℕ → Router
add_route r route_prefix prefix_length next_hop interface_num = record r {
  rule_list =
      r.rule_list
      ++ record {
        route_prefix = route_prefix;
        prefix_length = prefix_length;
        next_hop = next_hop;
        interface_num = interface_num;
      }
        ∷ [];
}

-- The test of a rule.
unfoldable pub matches : ℕ → RouteRule → Bool
matches target rule =
    rule.prefix_length == 0 || bit_xor target rule.route_prefix / 2 ^ (32 - rule.prefix_length) == 0

-- The loop of `route_one_datagram`, with `longest`, and `match_rule` if `find_match`.
pub longest_match : ℕ → ℕ → Option RouteRule → List RouteRule → Option RouteRule
longest_match target longest found [] = found
longest_match target longest found (rule ∷ rules) =
    let better = matches target rule && leb longest rule.prefix_length in
    longest_match target (if better then rule.prefix_length else longest)
      (if better then some rule else found) rules

-- `_interfaces.at(n)`, and the update through the reference.
pub at : List AsyncInterface → ℕ → Result AsyncInterface
at [] n = throw out_of_range
at (i ∷ is) zero = ok i
at (i ∷ is) (suc n) = at is n

pub set_at : List AsyncInterface → ℕ → AsyncInterface → List AsyncInterface
set_at [] n j = []
set_at (i ∷ is) zero j = j ∷ is
set_at (i ∷ is) (suc n) j = i ∷ set_at is n j

-- `next_hop` of the rule, or the destination of the datagram.
pub hop_of : RouteRule → ℕ → Address
hop_of rule dst = elim rule.next_hop [ some hop ↦ hop | none ↦ from_ipv4_numeric dst ]

-- The datagram with its time to live counted down.
abbrev pub hop_down : Ipv4Datagram → Ipv4Datagram
hop_down dgram = record dgram { header = record (dgram.header) { ttl = dgram.header.ttl - 1 } }

-- The end of `route_one_datagram`: the datagram goes out at the interface of the rule.
pub forward : Router → Ipv4Datagram → RouteRule → Result Router
unfolding at set_at hop_of
forward r dgram rule = at r.interfaces rule.interface_num >>= λ i.
    send_datagram i.base dgram (hop_of rule dgram.header.dst) >>= λ n.
    ok (record r { interfaces = set_at r.interfaces rule.interface_num (record i { base = n }) })

-- `Router::route_one_datagram`
unfoldable pub route_one_datagram : Router → Ipv4Datagram → Result Router
unfolding longest_match forward
route_one_datagram r dgram = elim (longest_match dgram.header.dst 0 none r.rule_list) [
  | none ↦ ok r
  | some rule ↦
      if dgram.header.ttl == 0 || dgram.header.ttl - 1 == 0
      then ok r
      else forward r (hop_down dgram) rule
]

-- The loop over the queue of one interface.
pub route_queue : Router → List Ipv4Datagram → Result Router
route_queue r [] = ok r
route_queue r (dgram ∷ queue) = route_one_datagram r dgram >>= λ r'. route_queue r' queue

-- The queue is empty after its loop.
pub clear_queue : Router → ℕ → AsyncInterface → Router
unfolding set_at
clear_queue r n i = record r {
  interfaces = set_at r.interfaces n (record i { datagrams_out = [] });
}

-- The loop of `route` from the interface `n` on, with `left` interfaces to go.
pub route_from : ℕ → ℕ → Router → Result Router
unfolding at route_queue clear_queue
route_from zero n r = ok r
route_from (suc left) n r = at r.interfaces n >>= λ i. route_queue r i.datagrams_out >>= λ r'.
    at r'.interfaces n >>= λ i'. route_from left (suc n) (clear_queue r' n i')

-- `Router::route`
unfoldable pub route : Router → Result Router
unfolding route_from
route r = route_from (length r.interfaces) 0 r
