-- ===== src/Simulator/Examples.antt =====
-- A host of apps/network_simulator.cc that has received what it expects, and two idle interfaces.
use sponge_2021fall.Common.{◌≡◌, ◌↔◌, refl, arith, [], ◌∷◌, ok, length, ℕ, List}
use sponge_2021fall.Address.{Address}
use sponge_2021fall.Wire.Buffer.{list_size}
use sponge_2021fall.Wire.Ipv4.{payload_length}
use sponge_2021fall.Wire.Datagram.{Ipv4Datagram, default_datagram}
use sponge_2021fall.Wire.Ethernet.{EthernetAddress, same_address}
use sponge_2021fall.Link.Interface
use sponge_2021fall.Link.Router.{AsyncInterface, recv_frame}
use sponge_2021fall.Link.Router.Sends.{Sendable}
use sponge_2021fall.Simulator.Addresses.{random_host_ethernet_address}
use sponge_2021fall.Simulator.Host.{Host, check}
use sponge_2021fall.Simulator.Network.{exchange_frames, frames_out, deliver, clear}
use sponge_2021fall.Simulator.Private.{IsPrivate, random_host_ethernet_address-IsPrivate}
use sponge_2021fall.Simulator.Check.{bytes_of, SameDatagrams, check_lem}
use sponge_2021fall.Simulator.Exchange.{Got, exchange_frames-Got}
use sponge_2021fall.Common.Assoc.{Assoc}
use sponge_2021fall.Simulator.Host
use sponge_2021fall.Simulator.Topology.{with_hosts, with_interfaces}
use sponge_2021fall.Simulator.Network.{Network}

abbrev mac : EthernetAddress
mac = 2 ∷ 0 ∷ 0 ∷ 0 ∷ 0 ∷ 1 ∷ []

abbrev peer : EthernetAddress
peer = 2 ∷ 0 ∷ 0 ∷ 0 ∷ 0 ∷ 2 ∷ []

abbrev local : Address
local = record { ip = 10; port = 0 }

abbrev dgram : Ipv4Datagram
dgram = record default_datagram {
  header = record (default_datagram.header) { len = 22 };
  payload = (7 ∷ 8 ∷ []) ∷ [];
}

abbrev waiting : AsyncInterface
waiting = record { base = Interface.init mac local; datagrams_out = dgram ∷ [] }

abbrev done : AsyncInterface
done = record { base = Interface.init mac local; datagrams_out = [] }

abbrev host : Host
host = record {
  name = 0;
  my_address = local;
  interface = waiting;
  next_hop = local;
  expecting_to_receive = dgram ∷ [];
}

dgram-Sendable : Sendable dgram
unfolding payload_length list_size
dgram-Sendable = record { ver = refl; hlen = omega arith; size = refl }

check_lem_example :
    (check host ≡ ok (record host { interface = done; expecting_to_receive = [] }))
    ↔ SameDatagrams bytes_of (dgram ∷ []) (dgram ∷ [])
check_lem_example = check_lem host (dgram-Sendable, tt) (dgram-Sendable, tt)

-- A frame for the peer, of a type that is not known.
abbrev sending : AsyncInterface
sending = record {
  base = record (Interface.init mac local) {
    frames_out = record { header = record { dst = peer; src = mac; type = 1 }; payload = [] } ∷ [];
  };
  datagrams_out = [];
}

abbrev idle : AsyncInterface
idle = record { base = Interface.init peer (record { ip = 11; port = 0 }); datagrams_out = [] }

exchange_frames-Got_example : Got [] sending done × Got (frames_out sending) idle idle
unfolding exchange_frames deliver clear recv_frame Interface.recv_frame Interface.init same_address
exchange_frames-Got_example = exchange_frames-Got sending idle done idle refl

random_host_ethernet_address-IsPrivate_example :
    IsPrivate (random_host_ethernet_address (300 ∷ 1 ∷ 2 ∷ 3 ∷ 4 ∷ 5 ∷ []))
    × (length (random_host_ethernet_address (300 ∷ 1 ∷ 2 ∷ 3 ∷ 4 ∷ 5 ∷ [])) ≡ 6)
random_host_ethernet_address-IsPrivate_example =
    random_host_ethernet_address-IsPrivate 300 (1 ∷ 2 ∷ 3 ∷ 4 ∷ 5 ∷ [])

abbrev words : ℕ → List ℕ
words n = n ∷ 1 ∷ 2 ∷ 3 ∷ 4 ∷ 5 ∷ []

-- The network as it is constructed, without routes.
abbrev fresh : Network
fresh = with_hosts words (with_interfaces words)
