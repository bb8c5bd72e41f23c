-- ===== src/Wire/Segment.antt =====
-- `parse` and `serialize` of libsponge/tcp_helpers/tcp_header.cc. A `|` of numbers without a common
-- bit is a sum, a shift is a product or a quotient.
pub mod RoundTrip
use sponge_2021fall.Common.{
  ℕ, zero, suc, ◌+◌, ◌-◌, ◌*◌, ◌/◌, ◌%◌, ◌^◌, Bool, true, false, not, List, [], ◌∷◌, ◌++◌, length,
  take, drop, ltb, ◌==◌, if◌then◌else◌, Result, ok, throw, runtime_error,
}
use sponge_2021fall.Wire.Bytes.{flag, bit, resize}
use sponge_2021fall.Seqno.{WrappingInt32}
use sponge_2021fall.Tcp.Segment.{TcpHeader, header_length}
use sponge_2021fall.Wire.Parser.{
  NetParser, ParseResult, is_error, no_error, header_too_short, u32, u16, u8, put32, put16, put8,
  remove_prefix,
}

-- `TCPHeader::parse`, which sets every field.
unfoldable pub parse : NetParser → ParseResult × TcpHeader × NetParser
parse p0 =
    let (sport, p1) = u16 p0 in
    let (dport, p2) = u16 p1 in
    let (seqno, p3) = u32 p2 in
    let (ackno, p4) = u32 p3 in
    let (offset_byte, p5) = u8 p4 in
    let (fl_b, p6) = u8 p5 in
    let (win, p7) = u16 p6 in
    let (cksum, p8) = u16 p7 in
    let (uptr, p9) = u16 p8 in
    let doff = offset_byte / 2 ^ 4 in
    let h : TcpHeader = record {
      sport = sport;
      dport = dport;
      seqno = record { raw_value = seqno };
      ackno = record { raw_value = ackno };
      doff = doff;
      urg = flag 5 fl_b;
      ack = flag 4 fl_b;
      psh = flag 3 fl_b;
      rst = flag 2 fl_b;
      syn = flag 1 fl_b;
      fin = flag 0 fl_b;
      win = win;
      cksum = cksum;
      uptr = uptr;
    } in
    let p10 = remove_prefix p9 (doff * 4 - header_length) in
    if ltb doff 5
    then (header_too_short, h, p9)
    else if is_error p10.error
    then (p10.error, h, p10)
    else (no_error, h, p10)

-- The byte of the flags.
abbrev pub flags : TcpHeader → ℕ
flags h = bit 5 h.urg + bit 4 h.ack + bit 3 h.psh + bit 2 h.rst + bit 1 h.syn + bit 0 h.fin

-- `TCPHeader::serialize`
unfoldable pub serialize : TcpHeader → Result (List ℕ)
serialize h =
    let ports = put16 (put16 [] h.sport) h.dport in
    let numbers = put32 (put32 ports h.seqno.raw_value) h.ackno.raw_value in
    let control = put8 (put8 numbers ((h.doff * 2 ^ 4) % 2 ^ 8)) (flags h) in
    if ltb h.doff 5
    then throw runtime_error
    else ok (resize (4 * h.doff) (put16 (put16 (put16 control h.win) h.cksum) h.uptr))
