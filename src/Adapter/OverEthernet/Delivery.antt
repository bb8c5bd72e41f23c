-- ===== src/Adapter/OverEthernet/Delivery.antt =====
-- A segment from one Ethernet adapter to another: the code of libsponge/tcp_helpers/tuntap_adapter.cc
-- with the network interface, frames, datagrams and segments below it.
use sponge_2021fall.Common.{
  ℕ, ◌≡◌, ◌<◌, ◌+◌, ◌^◌, ◌*◌, [], ◌∷◌, List, arith, refl, length, ok, some, true,
}
use sponge_2021fall.Common.Assoc.{find}
use sponge_2021fall.Address.{ipv4_numeric}
use sponge_2021fall.Tcp.Segment.{TcpSegment}
use sponge_2021fall.Wire.Bytes.{AllBytes}
use sponge_2021fall.Wire.Buffer.{BufferList, concatenate, to_buffer}
use sponge_2021fall.Wire.Parser.{no_error}
use sponge_2021fall.Wire.Datagram.{Ipv4Datagram, default_datagram}
use sponge_2021fall.Wire.Datagram
use sponge_2021fall.Wire.Segment.RoundTrip.{IsValid}
use sponge_2021fall.Wire.Ethernet.{EthernetAddress, EthernetFrame, same_address, type_ipv4}
use sponge_2021fall.Wire.Ethernet
use sponge_2021fall.Wire.Ethernet.RoundTrip.{IsAddress, parse_frame-serialize}
use sponge_2021fall.Link.Interface.{
  NetworkInterface, send_datagram, recv_frame, receive_payload, frame_to, push_frame,
}
use sponge_2021fall.Adapter.Base.{set_ports}
use sponge_2021fall.Adapter.OverIp.RoundTrip.{Peers, delivery, stamped}
use sponge_2021fall.Adapter.OverEthernet.{
  EthernetAdapter, default_frame, read, receive, write, send_pending, unwrap_received,
  serialize_all, Address,
}

same_address_refl : (a : EthernetAddress) → same_address a a ≡ true
unfolding same_address
same_address_refl [] = refl
same_address_refl (x ∷ xs) = ground (arith, same_address_refl xs)

send_datagram-known :
    (n : NetworkInterface) (dgram : Ipv4Datagram) (hop : Address) (dst : EthernetAddress) (t : ℕ)
    (wire : BufferList)
    → find (ipv4_numeric hop) n.mapping ≡ some (dst, t)
    → Datagram.serialize dgram ≡ ok wire
    → send_datagram n dgram hop ≡ ok (push_frame n (frame_to n dst type_ipv4 wire))
unfolding send_datagram
send_datagram-known n dgram hop dst t wire known sent = rw (send_datagram, known, sent) refl

recv_frame-datagram :
    (n : NetworkInterface) (src : EthernetAddress) (bytes : List ℕ) (d : Ipv4Datagram)
    → Datagram.parse default_datagram bytes ≡ (no_error, d)
    → recv_frame n (record {
      header = record { dst = n.ethernet_address; src = src; type = type_ipv4 };
      payload = bytes ∷ [];
    })
      ≡ ok (some d, n)
unfolding recv_frame receive_payload to_buffer
recv_frame-datagram n src bytes d parsed = rw (same_address_refl n.ethernet_address, parsed) refl

-- The interface is idle, and the next hop of `a` is `b`, whose Ethernet address `a` knows.
pub record Neighbours (a b : EthernetAdapter) : Type 0 where
  pub peers : Peers a.base b.base
  pub since : ℕ
  pub known :
      find (ipv4_numeric a.next_hop) a.interface.mapping
      ≡ some (b.interface.ethernet_address, since)
  pub idle_a : a.interface.frames_out ≡ []
  pub idle_b : b.interface.frames_out ≡ []
  pub address_a : IsAddress a.interface.ethernet_address
  pub address_b : IsAddress b.interface.ethernet_address

-- An adapter whose frames have been sent.
abbrev pub flushed : EthernetAdapter → EthernetAdapter
flushed a = record a { interface = record (a.interface) { frames_out = [] } }

-- A segment that fits an IPv4 datagram crosses the link. An adapter that knows the Ethernet address
-- of its next hop writes one frame for it. From the bytes of that frame the neighbour, which is
-- connected to the adapter and not listening, reads the same segment, with the ports of the adapter
-- and the checksum that was computed, and writes no frame itself.
pub read-write :
    (a b : EthernetAdapter) (seg : TcpSegment)
    → Neighbours a b
    → IsValid (set_ports a.base seg).header
    → AllBytes seg.payload
    → 20 + 4 * seg.header.doff + length seg.payload < 2 ^ 16
    → (c : ℕ) × (frame : BufferList) × (write a seg
        ≡ ok (set_ports a.base seg, frame ∷ [], flushed a))
      × (read b (concatenate frame) ≡ ok (some (stamped a.base seg c), [], flushed b))
unfolding read write receive send_pending unwrap_received serialize_all
read-write a b seg n v bytes size =
    let way = delivery a.base b.base seg n.peers v bytes size in
    let frame = frame_to a.interface b.interface.ethernet_address type_ipv4 way.wire in
    let valid : Ethernet.RoundTrip.IsValid frame.header = record {
      dst = n.address_b;
      src = n.address_a;
      type = omega arith;
    } in
    (
      way.cksum,
      Ethernet.serialize frame,
      rw
          (
            way.wrapped,
            send_datagram-known a.interface way.dgram a.next_hop b.interface.ethernet_address
                n.since way.wire n.known way.sent,
            n.idle_a,
          )
          refl,
      rw
          (
            parse_frame-serialize default_frame frame valid,
            recv_frame-datagram b.interface a.interface.ethernet_address (concatenate way.wire)
                way.arrived way.parsed,
            n.idle_b,
            way.unwrapped,
          )
          refl,
    )
