-- ===== src/Adapter/OverUdp.antt =====
-- `TCPOverUDPSocketAdapter` of libsponge/tcp_helpers/fd_adapter.hh and .cc. The socket is the
-- system's: what `recv` gives is an argument, and what `sendto` is given is a result.
use sponge_2021fall.Common.{
  ℕ, false, not, ◌&&◌, Option, none, some, List, if◌then◌else◌, Result, ok, ◌>>=◌,
}
use sponge_2021fall.Address.{Address, equals}
use sponge_2021fall.Tcp.Segment.{TcpSegment, default_segment}
use sponge_2021fall.Wire.Parser.{is_error}
use sponge_2021fall.Wire.Buffer.{BufferList}
use sponge_2021fall.Wire.TcpSegment
use sponge_2021fall.Adapter.Base.{Adapter, set_listening, set_ports}

-- What `_sock.recv()` returns.
pub record Received : Type 0 where
  pub source_address : Address
  pub payload : List ℕ

-- A listening adapter targets the source of a SYN from then on.
pub target : Adapter → Address → Adapter
unfolding set_listening
target a source = set_listening (record a { cfg = record (a.cfg) { destination = source } }) false

-- `TCPOverUDPSocketAdapter::read`
unfoldable pub read : Adapter → Received → Option TcpSegment × Adapter
unfolding target TcpSegment.parse equals
read a datagram =
    let (ret, seg) = TcpSegment.parse default_segment datagram.payload 0 in
    if not a.listening && not (equals datagram.source_address a.cfg.destination)
    then (none, a)
    else if is_error ret
    then (none, a)
    else if not a.listening
    then (some seg, a)
    else if seg.header.syn && not seg.header.rst
    then (some seg, target a datagram.source_address)
    else (none, a)

-- `TCPOverUDPSocketAdapter::write`: where to and what, and the segment that it changes.
unfoldable pub write : Adapter → TcpSegment → Result (Address × BufferList × TcpSegment)
unfolding set_ports TcpSegment.serialize
write a seg =
    let seg' = set_ports a seg in
    TcpSegment.serialize seg' 0 >>= λ payload. ok (a.cfg.destination, payload, seg')
