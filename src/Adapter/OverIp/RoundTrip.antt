-- ===== src/Adapter/OverIp/RoundTrip.antt =====
-- A segment from one adapter to another, through the bytes of a datagram: libsponge/tcp_helpers/
-- tcp_over_ip.cc with tcp_segment.cc and ipv4_datagram.cc.
use sponge_2021fall.Common.{
  ℕ, ◌≡◌, ◌<◌, ◌+◌, ◌^◌, ◌*◌, [], List, arith, refl, length, ok, ◌∷◌, Result, ◌>>=◌, Option, some,
  false, true, ◌==◌, IsU32,
}
use sponge_2021fall.Address.{ipv4_numeric}
use sponge_2021fall.Tcp.Segment.{TcpSegment, default_segment}
use sponge_2021fall.Wire.Bytes.{AllBytes}
use sponge_2021fall.Wire.Buffer.{concatenate, BufferList, to_buffer}
use sponge_2021fall.Wire.Parser.{no_error}
use sponge_2021fall.Wire.Ipv4.{Ipv4Header, pseudo_cksum}
use sponge_2021fall.Wire.Ipv4.RoundTrip as Ipv4Trip
use sponge_2021fall.Wire.Segment.RoundTrip as SegmentTrip
use sponge_2021fall.Wire.TcpSegment
use sponge_2021fall.Wire.TcpSegment.RoundTrip as TcpSegmentTrip
use sponge_2021fall.Wire.Datagram.{Ipv4Datagram, default_datagram}
use sponge_2021fall.Wire.Datagram
use sponge_2021fall.Wire.Datagram.RoundTrip as DatagramTrip
use sponge_2021fall.Adapter.Base.{Adapter, set_ports}
use sponge_2021fall.Adapter.OverIp.{
  wrap_tcp_in_ip, unwrap_tcp_in_ip, unwrap_payload, is_foreign, filter_segment, from_peer,
  header_for,
}

-- What the adapter `b` makes of a segment that `a` wraps, when the bytes of the datagram arrive.
abbrev pub over_the_wire : Adapter → Adapter → TcpSegment → Result (Option TcpSegment × Adapter)
over_the_wire a b seg = wrap_tcp_in_ip a seg >>= λ (w : Ipv4Datagram × TcpSegment).
    Datagram.serialize w.0 >>= λ (bufs : BufferList).
    unwrap_tcp_in_ip b (Datagram.parse default_datagram (concatenate bufs)).1

-- Connected adapters, each with the other's address.
pub record Peers (a b : Adapter) : Type 0 where
  pub listening : b.listening ≡ false
  pub source : b.cfg.source ≡ a.cfg.destination
  pub destination : b.cfg.destination ≡ a.cfg.source
  pub source_ip : IsU32 (ipv4_numeric a.cfg.source)
  pub destination_ip : IsU32 (ipv4_numeric a.cfg.destination)

header_for-IsValid :
    (a b : Adapter) (seg : TcpSegment)
    → Peers a b
    → 20 + 4 * seg.header.doff + length seg.payload < 2 ^ 16
    → (Ipv4Trip.IsValid (header_for a seg))
      × ((header_for a seg).len
          ≡ 4 * (header_for a seg).hlen + (4 * seg.header.doff + length seg.payload))
unfolding header_for
header_for-IsValid a b seg p size = (
  record {
    ver = refl;
    hlen = (omega arith, omega arith);
    tos = omega arith;
    len = omega arith;
    id = omega arith;
    offset = omega arith;
    ttl = omega arith;
    proto = omega arith;
    cksum = omega arith;
    src = p.source_ip;
    dst = p.destination_ip;
  },
  omega arith,
)

pseudo_cksum-lt : (h : Ipv4Header) → Ipv4Trip.IsValid h → pseudo_cksum h < 2 ^ 20
unfolding pseudo_cksum
pseudo_cksum-lt h v = omega (arith, v.src, v.dst, v.proto)

cksum-pseudo : (h : Ipv4Header) (c : ℕ) → pseudo_cksum (record h { cksum = c }) ≡ pseudo_cksum h
unfolding pseudo_cksum
cksum-pseudo h c = refl

is_foreign-peer :
    (a b : Adapter) (seg : TcpSegment) (c : ℕ)
    → Peers a b
    → is_foreign b (record (header_for a seg) { cksum = c }) ≡ false
unfolding is_foreign header_for
is_foreign-peer a b seg c p = rw (p.listening, p.source, p.destination) (ground arith)

filter_segment-peer :
    (a b : Adapter) (h : Ipv4Header) (seg : TcpSegment)
    → Peers a b
    → seg.header.sport ≡ a.cfg.source.port
    → seg.header.dport ≡ a.cfg.destination.port
    → filter_segment b h seg ≡ (some seg, b)
unfolding filter_segment from_peer
filter_segment-peer a b h seg p e f =
    let dport : (seg.header.dport == b.cfg.source.port) ≡ true =
      rw (p.source) (ground (arith, f)) in
    let sport : (seg.header.sport == b.cfg.destination.port) ≡ true =
      rw (p.destination) (ground (arith, e)) in
    rw (dport, sport, p.listening) refl

unwrap-peer :
    (a b : Adapter) (seg seg' : TcpSegment) (c : ℕ) (s : List ℕ)
    → Peers a b
    → seg'.header.sport ≡ a.cfg.source.port
    → seg'.header.dport ≡ a.cfg.destination.port
    → TcpSegment.parse default_segment s (pseudo_cksum (header_for a seg)) ≡ (no_error, seg')
    → unwrap_tcp_in_ip b
        (record { header = record (header_for a seg) { cksum = c }; payload = s ∷ [] })
      ≡ ok (some seg', b)
unfolding unwrap_tcp_in_ip unwrap_payload to_buffer
unwrap-peer a b seg seg' c s p e f read =
    rw
      (
        is_foreign-peer a b seg c p,
        cksum-pseudo (header_for a seg) c,
        read,
        filter_segment-peer a b (record (header_for a seg) { cksum = c }) seg' p e f,
      )
      refl

-- The segment with the ports of an adapter and a checksum.
abbrev pub stamped : Adapter → TcpSegment → ℕ → TcpSegment
stamped a seg c = record (set_ports a seg) {
  header = record ((set_ports a seg).header) { cksum = c };
}

-- The way of a segment, in four steps.
pub record Delivers (a b : Adapter) (seg : TcpSegment) : Type 0 where
  pub cksum : ℕ
  pub dgram : Ipv4Datagram
  pub wire : BufferList
  pub arrived : Ipv4Datagram
  pub wrapped : wrap_tcp_in_ip a seg ≡ ok (dgram, set_ports a seg)
  pub sent : Datagram.serialize dgram ≡ ok wire
  pub parsed : Datagram.parse default_datagram (concatenate wire) ≡ (no_error, arrived)
  pub unwrapped : unwrap_tcp_in_ip b arrived ≡ ok (some (stamped a seg cksum), b)

pub delivery :
    (a b : Adapter) (seg : TcpSegment)
    → Peers a b
    → SegmentTrip.IsValid (set_ports a seg).header
    → AllBytes seg.payload
    → 20 + 4 * seg.header.doff + length seg.payload < 2 ^ 16
    → Delivers a b seg
unfolding wrap_tcp_in_ip set_ports
delivery a b seg p v bytes size =
    let seg' = set_ports a seg in
    let h = header_for a seg' in
    let (valid, len) = header_for-IsValid a b seg' p size in
    let (c, bufs, written, count, read) =
      TcpSegmentTrip.parse_segment-serialize default_segment seg' (pseudo_cksum h) v bytes
        (pseudo_cksum-lt h valid) (omega (arith, size)) in
    let dgram : Ipv4Datagram = record { header = h; payload = bufs } in
    let (d, wire, sent, received, _) =
      DatagramTrip.parse_datagram-serialize default_datagram dgram valid
        (omega (arith, len, count)) in
    record {
      cksum = c;
      dgram = dgram;
      wire = wire;
      arrived = record { header = record h { cksum = d }; payload = concatenate bufs ∷ [] };
      wrapped = rw (written) refl;
      sent = sent;
      parsed = received;
      unwrapped = unwrap-peer a b seg' (stamped a seg c) d (concatenate bufs) p refl refl read;
    }

-- A segment that fits an IPv4 datagram reaches the peer. The adapter wraps it in a datagram, and the
-- peer, which is connected and not listening, gets from the bytes of that datagram the same segment,
-- with the ports of the adapter and the checksum that was computed. The peer is not changed.
pub over_the_wire-segment :
    (a b : Adapter) (seg : TcpSegment)
    → Peers a b
    → SegmentTrip.IsValid (set_ports a seg).header
    → AllBytes seg.payload
    → 20 + 4 * seg.header.doff + length seg.payload < 2 ^ 16
    → (c : ℕ) × (over_the_wire a b seg
        ≡ ok (
          some (record (set_ports a seg) {
            header = record ((set_ports a seg).header) { cksum = c };
          }),
          b,
        ))
over_the_wire-segment a b seg p v bytes size =
    let way = delivery a b seg p v bytes size in
    (way.cksum, rw (way.wrapped, way.sent, way.parsed) way.unwrapped)
