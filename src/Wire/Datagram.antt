-- ===== src/Wire/Datagram.antt =====
-- libsponge/tcp_helpers/ipv4_datagram.hh and .cc.
pub mod RoundTrip
use sponge_2021fall.Common.{
  ℕ, Bool, not, List, [], ◌∷◌, length, if◌then◌else◌, ◌==◌, Result, ok, throw, runtime_error, ◌>>=◌,
}
use sponge_2021fall.Wire.Parser.{NetParser, ParseResult, init, packet_too_short}
use sponge_2021fall.Wire.Buffer.{BufferList, list_size, append}
use sponge_2021fall.Wire.Checksum.{add, value}
use sponge_2021fall.Wire.Checksum
use sponge_2021fall.Wire.Ipv4.{Ipv4Header, default_header, payload_length}
use sponge_2021fall.Wire.Ipv4

pub record Ipv4Datagram : Type 0 where
  pub header : Ipv4Header
  pub payload : BufferList

-- `IPv4Datagram{}`
abbrev pub default_datagram : Ipv4Datagram
default_datagram = record { header = default_header; payload = [] }

-- `IPv4Datagram::parse`. What `_header.parse(p)` returns is not looked at.
unfoldable pub parse : Ipv4Datagram → List ℕ → ParseResult × Ipv4Datagram
parse d buffer =
    let (ret, h, p) = Ipv4.parse d.header (init buffer) in
    let d' : Ipv4Datagram = record { header = h; payload = p.buffer ∷ [] } in
    if not (length p.buffer == payload_length h) then (packet_too_short, d') else (p.error, d')

-- The header with its checksum, from the string of the header with a checksum of 0.
unfoldable pub sign : Ipv4Header → List ℕ → Ipv4Header
sign h zeroed = record h { cksum = value (add (Checksum.init 0) zeroed) }

-- `IPv4Datagram::serialize`
unfoldable pub serialize : Ipv4Datagram → Result BufferList
unfolding sign append
serialize d =
    if not (list_size d.payload == payload_length d.header)
    then throw runtime_error
    else (Ipv4.serialize (record (d.header) { cksum = 0 }) >>= λ zeroed.
        Ipv4.serialize (sign d.header zeroed) >>= λ header. ok (append (header ∷ []) d.payload))
