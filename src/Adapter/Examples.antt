-- ===== src/Adapter/Examples.antt =====
-- Two adapters that talk to each other.
use sponge_2021fall.Common.{◌≡◌, [], ◌∷◌, refl, arith, ok, some, false, ℕ}
use sponge_2021fall.Address.{ipv4_numeric}
use sponge_2021fall.Tcp.Segment.{TcpSegment, default_header}
use sponge_2021fall.Adapter.Base.{Adapter, default_config, set_ports}
use sponge_2021fall.Common.Assoc.{find}
use sponge_2021fall.Wire.Buffer.{BufferList, concatenate}
use sponge_2021fall.Wire.Segment.RoundTrip.{IsValid}
use sponge_2021fall.Link.Interface.{init}
use sponge_2021fall.Adapter.OverIp.RoundTrip.{stamped}
use sponge_2021fall.Adapter.OverEthernet.{EthernetAdapter, read, write}
use sponge_2021fall.Adapter.OverEthernet.Delivery.{read-write, flushed}

abbrev client : Adapter
client = record {
  cfg = record default_config {
    source = record { ip = 0x0a000001; port = 4000 };
    destination = record { ip = 0x0a000002; port = 80 };
  };
  listening = false;
}

abbrev server : Adapter
server = record {
  cfg = record default_config {
    source = record { ip = 0x0a000002; port = 80 };
    destination = record { ip = 0x0a000001; port = 4000 };
  };
  listening = false;
}

abbrev segment : TcpSegment
segment = record { header = default_header; payload = 104 ∷ 105 ∷ [] }

segment-IsValid : IsValid (set_ports client segment).header
unfolding set_ports
segment-IsValid = record {
  sport = omega arith;
  dport = omega arith;
  seqno = omega arith;
  ackno = omega arith;
  doff = (omega arith, omega arith);
  win = omega arith;
  cksum = omega arith;
  uptr = omega arith;
}

-- The same adapters on Ethernet, next to each other.
abbrev client_card : EthernetAdapter
client_card = record {
  base = client;
  interface = record (init (2 ∷ 0 ∷ 0 ∷ 0 ∷ 0 ∷ 1 ∷ []) client.cfg.source) {
    mapping = (0x0a000002, (2 ∷ 0 ∷ 0 ∷ 0 ∷ 0 ∷ 2 ∷ [], 0)) ∷ [];
  };
  next_hop = server.cfg.source;
}

abbrev server_card : EthernetAdapter
server_card = record {
  base = server;
  interface = init (2 ∷ 0 ∷ 0 ∷ 0 ∷ 0 ∷ 2 ∷ []) server.cfg.source;
  next_hop = client.cfg.source;
}

read-write_example :
    (c : ℕ) × (frame : BufferList) × (write client_card segment
      ≡ ok (set_ports client segment, frame ∷ [], flushed client_card))
    × (read server_card (concatenate frame)
        ≡ ok (some (stamped client segment c), [], flushed server_card))
unfolding init find ipv4_numeric
read-write_example =
    read-write client_card server_card segment
      (record {
        peers = record {
          listening = refl;
          source = refl;
          destination = refl;
          source_ip = omega arith;
          destination_ip = omega arith;
        };
        since = 0;
        known = refl;
        idle_a = refl;
        idle_b = refl;
        address_a = (
          refl,
          (
            omega arith,
            (omega arith, (omega arith, (omega arith, (omega arith, (omega arith, tt))))),
          ),
        );
        address_b = (
          refl,
          (
            omega arith,
            (omega arith, (omega arith, (omega arith, (omega arith, (omega arith, tt))))),
          ),
        );
      })
      segment-IsValid (omega arith, (omega arith, tt)) (omega arith)
