-- ===== src/Wire/Ipv4.antt =====
-- libsponge/tcp_helpers/ipv4_header.hh and .cc. A `|` of numbers without a common bit is a sum, a
-- mask of low bits is a remainder. Text for printing is left out.
pub mod RoundTrip
use sponge_2021fall.Common.{
  ℕ, ◌+◌, ◌-◌, ◌*◌, ◌/◌, ◌%◌, ◌^◌, Bool, true, false, not, ◌||◌, List, [], length, take, add32, u8,
  ltb, ◌==◌, if◌then◌else◌, Result, ok, throw, runtime_error,
}
use sponge_2021fall.Wire.Parser.{
  NetParser, ParseResult, is_error, no_error, bad_checksum, packet_too_short, wrong_ip_version,
  header_too_short, truncated_packet, u32, u16, put32, put16, put8, remove_prefix,
}
use sponge_2021fall.Wire.Parser
use sponge_2021fall.Wire.Bytes.{flag, bit, resize}
use sponge_2021fall.Wire.Checksum.{add, value}
use sponge_2021fall.Wire.Checksum

abbrev pub header_length : ℕ
header_length = 20

abbrev pub default_ttl : ℕ
default_ttl = 128

abbrev pub proto_tcp : ℕ
proto_tcp = 6

pub record Ipv4Header : Type 0 where
  pub ver : ℕ
  pub hlen : ℕ
  pub tos : ℕ
  pub len : ℕ
  pub id : ℕ
  pub df : Bool
  pub mf : Bool
  pub offset : ℕ
  pub ttl : ℕ
  pub proto : ℕ
  pub cksum : ℕ
  pub src : ℕ
  pub dst : ℕ

abbrev pub default_header : Ipv4Header
default_header = record {
  ver = 4;
  hlen = 5;
  tos = 0;
  len = 0;
  id = 0;
  df = true;
  mf = false;
  offset = 0;
  ttl = default_ttl;
  proto = proto_tcp;
  cksum = 0;
  src = 0;
  dst = 0;
}

-- The fields as `parse` reads them.
unfoldable pub read_fields : NetParser → Ipv4Header × NetParser
read_fields p0 =
    let (first_byte, p1) = Parser.u8 p0 in
    let (tos, p2) = Parser.u8 p1 in
    let (len, p3) = u16 p2 in
    let (id, p4) = u16 p3 in
    let (fo_val, p5) = u16 p4 in
    let (ttl, p6) = Parser.u8 p5 in
    let (proto, p7) = Parser.u8 p6 in
    let (cksum, p8) = u16 p7 in
    let (src, p9) = u32 p8 in
    let (dst, p10) = u32 p9 in
    (
      record {
        ver = first_byte / 2 ^ 4;
        hlen = first_byte % 2 ^ 4;
        tos = tos;
        len = len;
        id = id;
        df = flag 14 fo_val;
        mf = flag 13 fo_val;
        offset = fo_val % 2 ^ 13;
        ttl = ttl;
        proto = proto;
        cksum = cksum;
        src = src;
        dst = dst;
      },
      p10,
    )

-- The tests of `parse` on the fields, for a packet of `data_size` bytes.
unfoldable pub refuse : Ipv4Header → ℕ → ParseResult
refuse h data_size =
    if ltb data_size (4 * h.hlen)
    then packet_too_short
    else if not (h.ver == 4)
    then wrong_ip_version
    else if ltb h.hlen 5
    then header_too_short
    else if not (data_size == h.len)
    then truncated_packet
    else no_error

-- The rest of `parse`: the options are skipped, and the checksum is tested.
unfoldable pub check_header : List ℕ → Ipv4Header → NetParser → ParseResult × NetParser
check_header original h p =
    let p' = remove_prefix p (h.hlen * 4 - header_length) in
    let check = add (Checksum.init 0) (take (4 * h.hlen) original) in
    if is_error p'.error
    then (p'.error, p')
    else if not (value check == 0)
    then (bad_checksum, p')
    else (no_error, p')

-- `IPv4Header::parse`, on a header that is changed only if there are 20 bytes.
unfoldable pub parse : Ipv4Header → NetParser → ParseResult × Ipv4Header × NetParser
parse h0 p =
    let (h, p') = read_fields p in
    let refused = refuse h (length p.buffer) in
    let (ret, p'') = check_header p.buffer h p' in
    if ltb (length p.buffer) header_length
    then (packet_too_short, h0, p)
    else if is_error refused
    then (refused, h, p')
    else (ret, h, p'')

-- The first byte, and the flags with the offset.
abbrev pub first_byte : Ipv4Header → ℕ
first_byte h = (h.ver * 2 ^ 4 + h.hlen % 2 ^ 4) % 2 ^ 8

abbrev pub fo_val : Ipv4Header → ℕ
fo_val h = bit 14 h.df + bit 13 h.mf + h.offset % 2 ^ 13

-- The string before it is resized.
pub fields : Ipv4Header → List ℕ
fields h =
    let lengths = put16 (put16 (put8 (put8 [] (first_byte h)) h.tos) h.len) h.id in
    let control = put16 (put8 (put8 (put16 lengths (fo_val h)) h.ttl) h.proto) h.cksum in
    put32 (put32 control h.src) h.dst

-- `IPv4Header::serialize`
unfoldable pub serialize : Ipv4Header → Result (List ℕ)
unfolding fields
serialize h =
    if not (h.ver == 4)
    then throw runtime_error
    else if ltb (4 * h.hlen) header_length
    then throw runtime_error
    else ok (resize (4 * h.hlen) (fields h))

-- `IPv4Header::payload_length`, a `uint16_t`.
unfoldable pub payload_length : Ipv4Header → ℕ
payload_length h = (h.len + 2 ^ 16 - 4 * h.hlen) % 2 ^ 16

-- `IPv4Header::pseudo_cksum`
unfoldable pub pseudo_cksum : Ipv4Header → ℕ
unfolding payload_length
pseudo_cksum h =
    let source = add32 (h.src / 2 ^ 16) (h.src % 2 ^ 16) in
    let both = add32 source (add32 (h.dst / 2 ^ 16) (h.dst % 2 ^ 16)) in
    add32 (add32 both h.proto) (payload_length h)
