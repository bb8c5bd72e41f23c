-- ===== src/Adapter/OverIp.antt =====
-- libsponge/tcp_helpers/tcp_over_ip.hh and .cc.
pub mod RoundTrip
use sponge_2021fall.Common.{
  ℕ, ◌+◌, ◌*◌, ◌%◌, ◌^◌, Bool, true, false, not, ◌&&◌, ◌||◌, Option, none, some, List, [], length,
  u16, add64, ◌==◌, if◌then◌else◌, Result, ok, throw, ◌>>=◌,
}
use sponge_2021fall.Address.{Address, ipv4_numeric}
use sponge_2021fall.Tcp.Segment.{TcpSegment, TcpHeader, default_segment}
use sponge_2021fall.Wire.Parser.{is_error}
use sponge_2021fall.Wire.Buffer.{to_buffer}
use sponge_2021fall.Wire.TcpSegment
use sponge_2021fall.Wire.Ipv4.{Ipv4Header, default_header, proto_tcp, pseudo_cksum}
use sponge_2021fall.Wire.Datagram.{Ipv4Datagram}
use sponge_2021fall.Adapter.Base.{Adapter, AdapterConfig, set_listening, set_ports}

-- The filter on the addresses and the protocol of the datagram.
pub is_foreign : Adapter → Ipv4Header → Bool
is_foreign a h =
    (not a.listening && not (h.dst == ipv4_numeric a.cfg.source))
    || ((not a.listening && not (h.src == ipv4_numeric a.cfg.destination))
        || not (h.proto == proto_tcp))

-- A listening adapter takes on the addresses of a SYN.
pub bind : Adapter → Ipv4Header → TcpHeader → Adapter
unfolding set_listening
bind a h t =
    set_listening
      (record a {
        cfg = record (a.cfg) {
          source = record { ip = h.dst; port = a.cfg.source.port };
          destination = record { ip = h.src; port = t.sport };
        };
      })
      false

-- The last filter, on the port of the peer.
pub from_peer : Adapter → TcpSegment → Option TcpSegment × Adapter
from_peer a seg = if seg.header.sport == a.cfg.destination.port then (some seg, a) else (none, a)

-- What follows the parsing of a valid segment.
pub filter_segment : Adapter → Ipv4Header → TcpSegment → Option TcpSegment × Adapter
unfolding bind from_peer
filter_segment a h seg =
    if not (seg.header.dport == a.cfg.source.port)
    then (none, a)
    else if not a.listening
    then from_peer a seg
    else if seg.header.syn && not seg.header.rst
    then from_peer (bind a h seg.header) seg
    else (none, a)

-- The segment of a payload in one buffer.
pub unwrap_payload : Adapter → Ipv4Header → List ℕ → Option TcpSegment × Adapter
unfolding filter_segment
unwrap_payload a h payload =
    let (ret, seg) = TcpSegment.parse default_segment payload (pseudo_cksum h) in
    if is_error ret then (none, a) else filter_segment a h seg

-- `TCPOverIPv4Adapter::unwrap_tcp_in_ip`
unfoldable pub unwrap_tcp_in_ip : Adapter → Ipv4Datagram → Result (Option TcpSegment × Adapter)
unfolding is_foreign unwrap_payload
unwrap_tcp_in_ip a ip_dgram =
    if is_foreign a ip_dgram.header
    then ok (none, a)
    else (to_buffer ip_dgram.payload >>= λ payload. ok (unwrap_payload a ip_dgram.header payload))

-- The header of the datagram for a segment.
unfoldable pub header_for : Adapter → TcpSegment → Ipv4Header
header_for a seg = record default_header {
  src = ipv4_numeric a.cfg.source;
  dst = ipv4_numeric a.cfg.destination;
  len = u16 (add64 (default_header.hlen * 4 + seg.header.doff * 4) (length seg.payload));
}

-- `TCPOverIPv4Adapter::wrap_tcp_in_ip`, with the segment that it changes.
unfoldable pub wrap_tcp_in_ip : Adapter → TcpSegment → Result (Ipv4Datagram × TcpSegment)
unfolding set_ports
wrap_tcp_in_ip a seg =
    let seg' = set_ports a seg in
    let h = header_for a seg' in
    TcpSegment.serialize seg' (pseudo_cksum h) >>= λ payload.
    ok (record { header = h; payload = payload }, seg')
