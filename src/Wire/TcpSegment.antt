-- ===== src/Wire/TcpSegment.antt =====
-- `parse` and `serialize` of libsponge/tcp_helpers/tcp_segment.cc.
pub mod RoundTrip
use sponge_2021fall.Common.{
  ℕ, Bool, not, List, [], ◌∷◌, if◌then◌else◌, ◌==◌, Result, ok, throw, ◌>>=◌,
}
use sponge_2021fall.Tcp.Segment.{TcpHeader, TcpSegment}
use sponge_2021fall.Wire.Parser.{NetParser, ParseResult, init, bad_checksum}
use sponge_2021fall.Wire.Buffer.{BufferList}
use sponge_2021fall.Wire.Checksum.{add, value}
use sponge_2021fall.Wire.Checksum
use sponge_2021fall.Wire.Segment

-- `TCPSegment::parse`, on a segment that is changed only if the checksum is right. What
-- `_header.parse(p)` returns is not looked at.
unfoldable pub parse : TcpSegment → List ℕ → ℕ → ParseResult × TcpSegment
parse seg buffer datagram_layer_checksum =
    let check = add (Checksum.init datagram_layer_checksum) buffer in
    let (ret, h, p) = Segment.parse (init buffer) in
    if not (value check == 0)
    then (bad_checksum, seg)
    else (p.error, record { header = h; payload = p.buffer })

-- The checksum of a segment whose header is serialized with a checksum of 0.
unfoldable pub checksum : List ℕ → List ℕ → ℕ → ℕ
checksum header payload datagram_layer_checksum =
    value (add (add (Checksum.init datagram_layer_checksum) header) payload)

-- `TCPSegment::serialize`
unfoldable pub serialize : TcpSegment → ℕ → Result BufferList
unfolding checksum
serialize seg datagram_layer_checksum =
    Segment.serialize (record (seg.header) { cksum = 0 }) >>= λ zeroed.
    Segment.serialize
      (record (seg.header) { cksum = checksum zeroed seg.payload datagram_layer_checksum })
    >>= λ header. ok (header ∷ seg.payload ∷ [])
