-- ===== src/Wire/Examples.antt =====
-- Concrete packets.
use sponge_2021fall.Common.{
  ◌≡◌, ◌++◌, [], ◌∷◌, refl, arith, List, true, ℕ, ok, length, ◌*◌, if◌then◌else◌, ◌==◌,
}
use sponge_2021fall.Wire.Parser.{init, put16, no_error, bad_checksum}
use sponge_2021fall.Tcp.Segment.{TcpHeader, TcpSegment, default_header}
use sponge_2021fall.Wire.Segment.{parse, serialize}
use sponge_2021fall.Wire.Segment.RoundTrip.{parse-serialize, IsValid}
use sponge_2021fall.Wire.Checksum.{add, value}
use sponge_2021fall.Wire.Checksum
use sponge_2021fall.Wire.Checksum.Field.{value-field}
use sponge_2021fall.Wire.Buffer.{concatenate}
use sponge_2021fall.Wire.Ipv4
use sponge_2021fall.Wire.Ipv4.RoundTrip as Ipv4Trip
use sponge_2021fall.Wire.Datagram.{Ipv4Datagram, default_datagram}
use sponge_2021fall.Wire.Datagram
use sponge_2021fall.Wire.Datagram.RoundTrip.{parse_datagram-serialize, parse-unverified}
use sponge_2021fall.Wire.Arp.{ArpMessage, default_message}
use sponge_2021fall.Wire.Arp
use sponge_2021fall.Wire.Arp.RoundTrip as ArpTrip

-- A checksum in the third place of six bytes.
value-field_example :
    value (
      add (Checksum.init 7) (
        (1 ∷ 2 ∷ [])
        ++ (put16 [] (value (add (Checksum.init 7) ((1 ∷ 2 ∷ []) ++ (put16 [] 0 ++ 3 ∷ 4 ∷ []))))
            ++ 3 ∷ 4 ∷ [])))
    ≡ 0
value-field_example =
    value-field 7 (1 ∷ 2 ∷ []) (3 ∷ 4 ∷ []) refl (omega arith, (omega arith, tt))
      (omega arith, (omega arith, tt)) (omega arith)

-- A header with one word of options.
abbrev header : TcpHeader
header = record default_header { sport = 80; doff = 6; ack = true; syn = true; win = 65535 }

parse-serialize_example :
    (s : List ℕ) × (serialize header ≡ ok s)
    × (length s ≡ 4 * 6)
    × (parse (init (s ++ 1 ∷ 2 ∷ [])) ≡ (no_error, header, init (1 ∷ 2 ∷ [])))
parse-serialize_example = parse-serialize header (1 ∷ 2 ∷ []) (record {
  sport = omega arith;
  dport = omega arith;
  seqno = omega arith;
  ackno = omega arith;
  doff = (omega arith, omega arith);
  win = omega arith;
  cksum = omega arith;
  uptr = omega arith;
})

abbrev segment : TcpSegment
segment = record { header = header; payload = 1 ∷ 2 ∷ 3 ∷ [] }

header-IsValid : IsValid header
header-IsValid = record {
  sport = omega arith;
  dport = omega arith;
  seqno = omega arith;
  ackno = omega arith;
  doff = (omega arith, omega arith);
  win = omega arith;
  cksum = omega arith;
  uptr = omega arith;
}

-- A datagram with one word of options, and five bytes in two buffers.
abbrev datagram : Ipv4Datagram
datagram = record {
  header = record (Ipv4.default_header) { hlen = 6; len = 29; src = 0x0a000001; dst = 0x0a000002 };
  payload = (1 ∷ 2 ∷ []) ∷ (3 ∷ 4 ∷ 5 ∷ []) ∷ [];
}

datagram-IsValid : Ipv4Trip.IsValid datagram.header
datagram-IsValid = record {
  ver = refl;
  hlen = (omega arith, omega arith);
  tos = omega arith;
  len = omega arith;
  id = omega arith;
  offset = omega arith;
  ttl = omega arith;
  proto = omega arith;
  cksum = omega arith;
  src = omega arith;
  dst = omega arith;
}

parse_datagram-serialize_example :
    (c : ℕ) × (bufs : List (List ℕ)) × (Datagram.serialize datagram ≡ ok bufs)
    × (Datagram.parse default_datagram (concatenate bufs) ≡ (
      no_error,
      record {
        header = record (datagram.header) { cksum = c };
        payload = concatenate datagram.payload ∷ [];
      },
    ))
    × ((Ipv4.parse default_datagram.header (init (concatenate bufs))).0 ≡ no_error)
unfolding concatenate
parse_datagram-serialize_example =
    parse_datagram-serialize default_datagram datagram datagram-IsValid refl

parse-unverified_example :
    (Datagram.parse default_datagram (
        Ipv4Trip.bytes datagram.header (Ipv4Trip.padding datagram.header ++ 1 ∷ 2 ∷ 3 ∷ 4 ∷ 5 ∷ []))
      ≡ (no_error, record { header = datagram.header; payload = (1 ∷ 2 ∷ 3 ∷ 4 ∷ 5 ∷ []) ∷ [] }))
    × ((Ipv4.parse default_datagram.header (
          init (
            Ipv4Trip.bytes datagram.header
              (Ipv4Trip.padding datagram.header ++ 1 ∷ 2 ∷ 3 ∷ 4 ∷ 5 ∷ [])))).0
        ≡ (if value (
                add
                  (Checksum.init 0)
                  (Ipv4Trip.bytes datagram.header (Ipv4Trip.padding datagram.header)))
              == 0
            then no_error
            else bad_checksum))
parse-unverified_example =
    parse-unverified default_datagram datagram.header (1 ∷ 2 ∷ 3 ∷ 4 ∷ 5 ∷ []) datagram-IsValid refl

-- A request for an Ethernet address.
abbrev request : ArpMessage
request = record default_message {
  opcode = 1;
  sender_ethernet_address = 2 ∷ 0 ∷ 0 ∷ 0 ∷ 0 ∷ 1 ∷ [];
  sender_ip_address = 0x0a000001;
  target_ip_address = 0x0a000002;
}

request-IsValid : ArpTrip.IsValid request
request-IsValid = record {
  hardware_type = omega arith;
  protocol_type = omega arith;
  hardware_address_size = omega arith;
  protocol_address_size = omega arith;
  opcode = omega arith;
  sender_ethernet_address = (refl, omega arith);
  sender_ip_address = omega arith;
  target_ethernet_address = (refl, omega arith);
  target_ip_address = omega arith;
}

parse_message-serialize_example :
    (s : List ℕ) × (Arp.serialize request ≡ ok s)
    × (length s ≡ 28)
    × (Arp.parse default_message s ≡ (no_error, request))
parse_message-serialize_example =
    ArpTrip.parse_message-serialize default_message request request-IsValid
      (unfold Arp.supported in refl)
