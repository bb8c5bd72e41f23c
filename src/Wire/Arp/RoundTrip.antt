-- ===== src/Wire/Arp/RoundTrip.antt =====
-- ARP messages of libsponge/tcp_helpers/arp_message.cc written and read.
use sponge_2021fall.Common.{
  ℕ, ◌≡◌, ◌++◌, [], List, arith, refl, ap, append_assoc, append-nil, length, IsU8, IsU16, IsU32, ok,
  true, false, ltb, length-append,
}
use sponge_2021fall.Wire.Parser.{init, no_error, put16, put8, put32}
use sponge_2021fall.Wire.Parser.RoundTrip.{u16-put16, u32-put32, u8-put8}
use sponge_2021fall.Wire.Parser.Append.{put16-append, put8-append, put32-append}
use sponge_2021fall.Wire.Ethernet.RoundTrip.{IsAddress, put_bytes-append, read_bytes-append}
use sponge_2021fall.Wire.Arp.{
  ArpMessage, supported, read_kind, read_addresses, parse, serialize, message_length,
}

-- Each field fits its width.
pub record IsValid (m : ArpMessage) : Type 0 where
  pub hardware_type : IsU16 m.hardware_type
  pub protocol_type : IsU16 m.protocol_type
  pub hardware_address_size : IsU8 m.hardware_address_size
  pub protocol_address_size : IsU8 m.protocol_address_size
  pub opcode : IsU16 m.opcode
  pub sender_ethernet_address : IsAddress m.sender_ethernet_address
  pub sender_ip_address : IsU32 m.sender_ip_address
  pub target_ethernet_address : IsAddress m.target_ethernet_address
  pub target_ip_address : IsU32 m.target_ip_address

-- The bytes of the addresses, and those of the message.
abbrev addresses : ArpMessage → List ℕ → List ℕ
addresses m rest =
    m.sender_ethernet_address
    ++ (put32 [] m.sender_ip_address
        ++ (m.target_ethernet_address ++ (put32 [] m.target_ip_address ++ rest)))

abbrev kind : ArpMessage → List ℕ → List ℕ
kind m rest =
    put16 [] m.hardware_type
    ++ (put16 [] m.protocol_type
        ++ (put8 [] m.hardware_address_size
            ++ (put8 [] m.protocol_address_size ++ (put16 [] m.opcode ++ rest))))

serialize-eq :
    (m : ArpMessage) → IsValid m → supported m ≡ true → serialize m ≡ ok (kind m (addresses m []))
unfolding serialize
serialize-eq m v h =
    let s1 = put16 [] m.hardware_type in
    let s2 = s1 ++ put16 [] m.protocol_type in
    let s3 = s2 ++ put8 [] m.hardware_address_size in
    let s4 = s3 ++ put8 [] m.protocol_address_size in
    let s5 = s4 ++ put16 [] m.opcode in
    let s6 = s5 ++ m.sender_ethernet_address in
    let s7 = s6 ++ put32 [] m.sender_ip_address in
    rw
      (
        h,
        put16-append s1 m.protocol_type,
        put8-append s2 m.hardware_address_size,
        put8-append s3 m.protocol_address_size,
        put16-append s4 m.opcode,
        put_bytes-append s5 m.sender_ethernet_address v.sender_ethernet_address.1,
        put32-append s6 m.sender_ip_address,
        put_bytes-append s7 m.target_ethernet_address v.target_ethernet_address.1,
        put32-append (s7 ++ m.target_ethernet_address) m.target_ip_address,
      )
      (ap ok (simp (append_assoc, append-nil)))

abbrev with_kind : ArpMessage → ArpMessage → ArpMessage
with_kind m0 m = record m0 {
  hardware_type = m.hardware_type;
  protocol_type = m.protocol_type;
  hardware_address_size = m.hardware_address_size;
  protocol_address_size = m.protocol_address_size;
  opcode = m.opcode;
}

read_kind-bytes :
    (m0 m : ArpMessage) (rest : List ℕ)
    → IsValid m
    → read_kind m0 (init (kind m rest)) ≡ (with_kind m0 m, init rest)
unfolding read_kind
read_kind-bytes m0 m rest v =
    let sizes = put8 [] m.protocol_address_size ++ (put16 [] m.opcode ++ rest) in
    rw
      (
        u16-put16 m.hardware_type
            (put16 [] m.protocol_type ++ (put8 [] m.hardware_address_size ++ sizes))
            v.hardware_type,
        u16-put16 m.protocol_type (put8 [] m.hardware_address_size ++ sizes) v.protocol_type,
        u8-put8 m.hardware_address_size sizes v.hardware_address_size,
        u8-put8 m.protocol_address_size (put16 [] m.opcode ++ rest) v.protocol_address_size,
        u16-put16 m.opcode rest v.opcode,
      )
      refl

read_addresses-bytes :
    (m0 m : ArpMessage) (rest : List ℕ)
    → IsValid m
    → read_addresses m0 (init (addresses m rest)) ≡ (
      record m0 {
        sender_ethernet_address = m.sender_ethernet_address;
        sender_ip_address = m.sender_ip_address;
        target_ethernet_address = m.target_ethernet_address;
        target_ip_address = m.target_ip_address;
      },
      init rest,
    )
unfolding read_addresses
read_addresses-bytes m0 m rest v =
    let target = put32 [] m.target_ip_address ++ rest in
    rw
      (
        read_bytes-append 6 m.sender_ethernet_address
            (put32 [] m.sender_ip_address ++ (m.target_ethernet_address ++ target))
            v.sender_ethernet_address.0 v.sender_ethernet_address.1,
        u32-put32 m.sender_ip_address (m.target_ethernet_address ++ target) v.sender_ip_address,
        read_bytes-append 6 m.target_ethernet_address target v.target_ethernet_address.0
            v.target_ethernet_address.1,
        u32-put32 m.target_ip_address rest v.target_ip_address,
      )
      refl

length-bytes : (m : ArpMessage) → IsValid m → length (kind m (addresses m [])) ≡ message_length
unfolding put8 put16 put32
length-bytes m v = ground (
  arith,
  v.sender_ethernet_address,
  v.target_ethernet_address,
  length-append m.sender_ethernet_address (
      put32 [] m.sender_ip_address
      ++ (m.target_ethernet_address ++ (put32 [] m.target_ip_address ++ []))),
  length-append m.target_ethernet_address (put32 [] m.target_ip_address ++ []),
)

-- A supported message whose fields fit their widths is serialized to 28 bytes. Parsed from those
-- bytes, it is the same message, without an error.
pub parse_message-serialize :
    (m0 m : ArpMessage)
    → IsValid m
    → supported m ≡ true
    → (s : List ℕ) × (serialize m ≡ ok s)
      × (length s ≡ message_length)
      × (parse m0 s ≡ (no_error, m))
unfolding parse
parse_message-serialize m0 m v h =
    let long : ltb (length (kind m (addresses m []))) message_length ≡ false =
      ground (arith, length-bytes m v) in
    (
      kind m (addresses m []),
      serialize-eq m v h,
      length-bytes m v,
      rw
          (
            long,
            read_kind-bytes m0 m (addresses m []) v,
            read_addresses-bytes (with_kind m0 m) m [] v,
            h,
          )
          refl,
    )
