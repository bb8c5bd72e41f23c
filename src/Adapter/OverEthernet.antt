-- ===== src/Adapter/OverEthernet.antt =====
-- `TCPOverIPv4OverEthernetAdapter` of libsponge/tcp_helpers/tuntap_adapter.hh and .cc. What the
-- device gives is an argument, and the frames that it is given are a result.
pub mod Delivery
use sponge_2021fall.Common.{ℕ, Option, none, some, List, [], ◌∷◌, if◌then◌else◌, Result, ok, ◌>>=◌}
use sponge_2021fall.Address.{Address}
use sponge_2021fall.Tcp.Segment.{TcpSegment}
use sponge_2021fall.Wire.Parser.{is_error}
use sponge_2021fall.Wire.Buffer.{BufferList}
use sponge_2021fall.Wire.Datagram.{Ipv4Datagram}
use sponge_2021fall.Wire.Ethernet.{EthernetAddress, EthernetFrame, no_address}
use sponge_2021fall.Wire.Ethernet
use sponge_2021fall.Adapter.Base.{Adapter, default_adapter}
use sponge_2021fall.Adapter.OverIp.{unwrap_tcp_in_ip, wrap_tcp_in_ip}
use sponge_2021fall.Link.Interface.{NetworkInterface, recv_frame, send_datagram}
use sponge_2021fall.Link.Interface

pub record EthernetAdapter : Type 0 where
  pub base : Adapter
  pub interface : NetworkInterface
  pub next_hop : Address

-- `EthernetFrame frame;`
abbrev pub default_frame : EthernetFrame
default_frame = record {
  header = record { dst = no_address; src = no_address; type = 0 };
  payload = [];
}

-- The constructor, with the frame that it writes.
unfoldable pub init : EthernetAddress → Address → Address → BufferList × EthernetAdapter
init eth_address ip_address next_hop = (
  Ethernet.serialize default_frame,
  record {
    base = default_adapter;
    interface = Interface.init eth_address ip_address;
    next_hop = next_hop;
  },
)

-- The loop of `send_pending`, over the queue of frames.
pub serialize_all : List EthernetFrame → List BufferList
serialize_all [] = []
serialize_all (frame ∷ frames) = Ethernet.serialize frame ∷ serialize_all frames

-- `send_pending`, with the frames that it writes.
unfoldable pub send_pending : EthernetAdapter → List BufferList × EthernetAdapter
unfolding serialize_all
send_pending a = (
  serialize_all a.interface.frames_out,
  record a { interface = record (a.interface) { frames_out = [] } },
)

-- The end of `read`.
unfoldable pub unwrap_received :
    EthernetAdapter → Option Ipv4Datagram → Result (Option TcpSegment × EthernetAdapter)
unwrap_received a none = ok (none, a)
unwrap_received a (some ip_dgram) =
    unwrap_tcp_in_ip a.base ip_dgram >>= λ (r : Option TcpSegment × Adapter).
    ok (r.0, record a { base = r.1 })

-- The part of `read` after the frame is parsed.
unfoldable pub receive :
    EthernetAdapter → EthernetFrame → Result (Option TcpSegment × List BufferList × EthernetAdapter)
receive a frame = recv_frame a.interface frame >>= λ (r : Option Ipv4Datagram × NetworkInterface).
    (let (frames, a') = send_pending (record a { interface = r.1 }) in
      unwrap_received a' r.0 >>= λ (u : Option TcpSegment × EthernetAdapter). ok (u.0, frames, u.1))

-- `read`, of what `_tap.read()` gives, with the frames that it writes.
unfoldable pub read :
    EthernetAdapter → List ℕ → Result (Option TcpSegment × List BufferList × EthernetAdapter)
read a bytes =
    let (ret, frame) = Ethernet.parse default_frame bytes in
    if is_error ret then ok (none, [], a) else receive a frame

-- `tick`
unfoldable pub tick : EthernetAdapter → ℕ → List BufferList × EthernetAdapter
tick a ms_since_last_tick =
    send_pending (record a { interface = Interface.tick a.interface ms_since_last_tick })

-- `write`, with the frames that it writes and the segment that it changes.
unfoldable pub write :
    EthernetAdapter → TcpSegment → Result (TcpSegment × List BufferList × EthernetAdapter)
write a seg = wrap_tcp_in_ip a.base seg >>= λ (w : Ipv4Datagram × TcpSegment).
    send_datagram a.interface w.0 a.next_hop >>= λ (n : NetworkInterface).
    (let (frames, a') = send_pending (record a { interface = n }) in ok (w.1, frames, a'))
