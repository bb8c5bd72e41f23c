-- ===== src/Tcp/Segment.antt =====
-- libsponge/tcp_helpers/tcp_header.hh and tcp_segment.hh: the fields of a segment, and the sequence
-- numbers that it takes up. A payload is the bytes that its `Buffer` shows.
use sponge_2021fall.Common.{ℕ, Bool, false, List, [], length, add64, if◌then◌else◌}
use sponge_2021fall.Seqno.{WrappingInt32}

pub record TcpHeader : Type 0 where
  pub sport : ℕ
  pub dport : ℕ
  pub seqno : WrappingInt32
  pub ackno : WrappingInt32
  pub doff : ℕ
  pub urg : Bool
  pub ack : Bool
  pub psh : Bool
  pub rst : Bool
  pub syn : Bool
  pub fin : Bool
  pub win : ℕ
  pub cksum : ℕ
  pub uptr : ℕ

-- `TCPHeader::LENGTH`
abbrev pub header_length : ℕ
header_length = 20

-- A header as its default member initialisers make it.
abbrev pub default_header : TcpHeader
default_header = record {
  sport = 0;
  dport = 0;
  seqno = record { raw_value = 0 };
  ackno = record { raw_value = 0 };
  doff = 5;
  urg = false;
  ack = false;
  psh = false;
  rst = false;
  syn = false;
  fin = false;
  win = 0;
  cksum = 0;
  uptr = 0;
}

pub record TcpSegment : Type 0 where
  pub header : TcpHeader
  pub payload : List ℕ

abbrev pub default_segment : TcpSegment
default_segment = record { header = default_header; payload = [] }

unfoldable pub length_in_sequence_space : TcpSegment → ℕ
length_in_sequence_space seg =
    add64 (add64 (length seg.payload) (if seg.header.syn then 1 else 0))
      (if seg.header.fin then 1 else 0)
