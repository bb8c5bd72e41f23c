-- ===== src/Wire/Ethernet.antt =====
-- libsponge/tcp_helpers/ethernet_header.hh, .cc, ethernet_frame.hh and .cc. An Ethernet address is a
-- list of six bytes.
pub mod RoundTrip
use sponge_2021fall.Common.{
  ℕ, zero, suc, Bool, true, false, ◌&&◌, List, [], ◌∷◌, ◌++◌, length, ltb, ◌==◌, if◌then◌else◌,
}
use sponge_2021fall.Wire.Parser.{
  NetParser, ParseResult, init, packet_too_short, u16, u8, put16, put8,
}
use sponge_2021fall.Wire.Buffer.{BufferList, append}

abbrev pub EthernetAddress : Type 0
EthernetAddress = List ℕ

-- `operator==` of `std::array`
unfoldable pub same_address : EthernetAddress → EthernetAddress → Bool
same_address [] [] = true
same_address [] (y ∷ ys) = false
same_address (x ∷ xs) [] = false
same_address (x ∷ xs) (y ∷ ys) = x == y && same_address xs ys

-- `EthernetAddress()`
abbrev pub no_address : EthernetAddress
no_address = 0 ∷ 0 ∷ 0 ∷ 0 ∷ 0 ∷ 0 ∷ []

-- `ETHERNET_BROADCAST`
abbrev pub broadcast : EthernetAddress
broadcast = 0xff ∷ 0xff ∷ 0xff ∷ 0xff ∷ 0xff ∷ 0xff ∷ []

abbrev pub header_length : ℕ
header_length = 14

abbrev pub type_ipv4 : ℕ
type_ipv4 = 0x800

abbrev pub type_arp : ℕ
type_arp = 0x806

pub record EthernetHeader : Type 0 where
  pub dst : EthernetAddress
  pub src : EthernetAddress
  pub type : ℕ

pub record EthernetFrame : Type 0 where
  pub header : EthernetHeader
  pub payload : BufferList

-- The loop `for (auto &byte : address) byte = p.u8();` over `n` bytes.
unfoldable pub read_bytes : ℕ → NetParser → List ℕ × NetParser
read_bytes zero p = ([], p)
read_bytes (suc n) p =
    let (byte, p') = u8 p in let (bytes, p'') = read_bytes n p' in (byte ∷ bytes, p'')

-- The loop that writes an address.
unfoldable pub put_bytes : List ℕ → List ℕ → List ℕ
put_bytes s [] = s
put_bytes s (byte ∷ bytes) = put_bytes (put8 s byte) bytes

-- `EthernetHeader::parse`
unfoldable pub parse_header : EthernetHeader → NetParser → ParseResult × EthernetHeader × NetParser
parse_header h0 p =
    let (dst, p1) = read_bytes 6 p in
    let (src, p2) = read_bytes 6 p1 in
    let (type, p3) = u16 p2 in
    if ltb (length p.buffer) header_length
    then (packet_too_short, h0, p)
    else (p3.error, record { dst = dst; src = src; type = type }, p3)

-- `EthernetHeader::serialize`
unfoldable pub serialize_header : EthernetHeader → List ℕ
serialize_header h = put16 (put_bytes (put_bytes [] h.dst) h.src) h.type

-- `EthernetFrame::parse`. What `_header.parse(p)` returns is not looked at.
unfoldable pub parse : EthernetFrame → List ℕ → ParseResult × EthernetFrame
unfolding parse_header
parse f buffer =
    let (ret, h, p) = parse_header f.header (init buffer) in
    (p.error, record { header = h; payload = p.buffer ∷ [] })

-- `EthernetFrame::serialize`
unfoldable pub serialize : EthernetFrame → BufferList
unfolding serialize_header append
serialize f = append (serialize_header f.header ∷ []) f.payload
