-- ===== src/Wire/Arp.antt =====
-- libsponge/tcp_helpers/arp_message.hh and .cc. Text for printing is left out.
pub mod RoundTrip
use sponge_2021fall.Common.{
  ℕ, Bool, not, ◌&&◌, ◌||◌, List, [], length, ltb, ◌==◌, if◌then◌else◌, Result, ok, throw,
  runtime_error,
}
use sponge_2021fall.Wire.Parser.{
  NetParser, ParseResult, init, packet_too_short, unsupported, u32, u16, u8, put32, put16, put8,
}
use sponge_2021fall.Wire.Ethernet.{EthernetAddress, no_address, type_ipv4, read_bytes, put_bytes}

abbrev pub message_length : ℕ
message_length = 28

abbrev pub type_ethernet : ℕ
type_ethernet = 1

abbrev pub opcode_request : ℕ
opcode_request = 1

abbrev pub opcode_reply : ℕ
opcode_reply = 2

pub record ArpMessage : Type 0 where
  pub hardware_type : ℕ
  pub protocol_type : ℕ
  pub hardware_address_size : ℕ
  pub protocol_address_size : ℕ
  pub opcode : ℕ
  pub sender_ethernet_address : EthernetAddress
  pub sender_ip_address : ℕ
  pub target_ethernet_address : EthernetAddress
  pub target_ip_address : ℕ

-- A message as its default member initialisers make it.
abbrev pub default_message : ArpMessage
default_message = record {
  hardware_type = type_ethernet;
  protocol_type = type_ipv4;
  hardware_address_size = 6;
  protocol_address_size = 4;
  opcode = 0;
  sender_ethernet_address = no_address;
  sender_ip_address = 0;
  target_ethernet_address = no_address;
  target_ip_address = 0;
}

-- `ARPMessage::supported`
unfoldable pub supported : ArpMessage → Bool
supported m =
    m.hardware_type == type_ethernet
    && (m.protocol_type == type_ipv4
        && (m.hardware_address_size == 6
            && (m.protocol_address_size == 4
                && (m.opcode == opcode_request || m.opcode == opcode_reply))))

-- The fields up to `opcode`, and the parser after them.
unfoldable pub read_kind : ArpMessage → NetParser → ArpMessage × NetParser
read_kind m p0 =
    let (hardware_type, p1) = u16 p0 in
    let (protocol_type, p2) = u16 p1 in
    let (hardware_address_size, p3) = u8 p2 in
    let (protocol_address_size, p4) = u8 p3 in
    let (opcode, p5) = u16 p4 in
    (
      record m {
        hardware_type = hardware_type;
        protocol_type = protocol_type;
        hardware_address_size = hardware_address_size;
        protocol_address_size = protocol_address_size;
        opcode = opcode;
      },
      p5,
    )

-- The addresses of sender and target.
unfoldable pub read_addresses : ArpMessage → NetParser → ArpMessage × NetParser
read_addresses m p0 =
    let (sender_ethernet_address, p1) = read_bytes 6 p0 in
    let (sender_ip_address, p2) = u32 p1 in
    let (target_ethernet_address, p3) = read_bytes 6 p2 in
    let (target_ip_address, p4) = u32 p3 in
    (
      record m {
        sender_ethernet_address = sender_ethernet_address;
        sender_ip_address = sender_ip_address;
        target_ethernet_address = target_ethernet_address;
        target_ip_address = target_ip_address;
      },
      p4,
    )

-- `ARPMessage::parse`
unfoldable pub parse : ArpMessage → List ℕ → ParseResult × ArpMessage
unfolding supported
parse m0 buffer =
    let (m, p) = read_kind m0 (init buffer) in
    let (m', p') = read_addresses m p in
    if ltb (length buffer) message_length
    then (packet_too_short, m0)
    else if not (supported m)
    then (unsupported, m)
    else (p'.error, m')

-- `ARPMessage::serialize`
unfoldable pub serialize : ArpMessage → Result (List ℕ)
unfolding supported
serialize m =
    let kind = put16 (put16 [] m.hardware_type) m.protocol_type in
    let sizes = put8 (put8 kind m.hardware_address_size) m.protocol_address_size in
    let sender =
      put32 (put_bytes (put16 sizes m.opcode) m.sender_ethernet_address) m.sender_ip_address in
    if not (supported m)
    then throw runtime_error
    else ok (put32 (put_bytes sender m.target_ethernet_address) m.target_ip_address)
