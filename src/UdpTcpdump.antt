-- ===== src/UdpTcpdump.antt =====
-- apps/udp_tcpdump.cc: where in a captured packet the payload of its UDP datagram is. A packet is the
-- list of its `caplen` bytes, and a reading past them is told as `overrun`. The types of the link
-- layer are constants of pcap; what is printed is left out.
pub mod Bounds
mod Examples
use sponge_2021fall.Common.{
  ℕ, zero, suc, ◌+◌, ◌*◌, ◌^◌, Bool, true, false, not, ◌&&◌, Option, none, some, List, [], ◌∷◌,
  length, take, drop, bit_and, ltb, ◌==◌, if◌then◌else◌, sub64, add64,
}

pub data Located {ℓ} (A : Type ℓ) : Type ℓ where
  rejected : Located A
  overrun : Located A
  located : A → Located A

infixl 5 ◌>>=◌
abbrev pub ◌>>=◌ {ℓ κ} : {A : Type ℓ} {B : Type κ} → Located A → (A → Located B) → Located B
rejected >>= f = rejected
overrun >>= f = overrun
located a >>= f = f a

-- `data[i]`
unfoldable pub byte_at : List ℕ → ℕ → Located ℕ
byte_at [] i = overrun
byte_at (b ∷ bytes) zero = located b
byte_at (b ∷ bytes) (suc i) = byte_at bytes i

-- The `n` bytes that `inet_ntop` reads from `data + i`.
unfoldable pub bytes_at : List ℕ → ℕ → ℕ → Located (List ℕ)
bytes_at bytes i n = if ltb (length bytes) (i + n) then overrun else located (take n (drop i bytes))

-- The start of the UDP payload, and the two addresses.
pub record Found : Type 0 where
  pub start_off : ℕ
  pub src_addr : List ℕ
  pub dst_addr : List ℕ

-- The end of `process_ipv4_ipv6`, which skips the UDP header.
unfoldable pub found : List ℕ → ℕ → ℕ → ℕ → ℕ → Located Found
found bytes data_offset src dst size = bytes_at bytes src size >>= λ (s : List ℕ).
    bytes_at bytes dst size >>= λ (d : List ℕ).
    located (record { start_off = data_offset + 8; src_addr = s; dst_addr = d })

-- The branch for IPv4.
unfoldable pub process_ipv4 : List ℕ → ℕ → Located Found
process_ipv4 bytes first =
    let data_offset = bit_and first 0x0f * 4 in
    if ltb (length bytes) data_offset
    then rejected
    else (byte_at bytes 9 >>= λ (proto : ℕ).
        if not (proto == 0x11) then rejected else found bytes data_offset 12 16 4)

-- The loop over the extension headers of IPv6, with `data_offset` and `nxt`. A round goes at least
-- eight bytes on, and ends where they pass the end: `fuel` is the length of the packet.
unfoldable pub skip_extensions : ℕ → List ℕ → ℕ → ℕ → Located ℕ
skip_extensions zero bytes data_offset nxt = overrun
skip_extensions (suc fuel) bytes data_offset nxt =
    if nxt == 0x11
    then located data_offset
    else if not (nxt == 0) && (not (nxt == 43) && not (nxt == 60))
    then rejected
    else (byte_at bytes data_offset >>= λ (nxt' : ℕ).
        byte_at bytes (data_offset + 1) >>= λ (size : ℕ).
        if ltb (length bytes) (data_offset + 8 * (1 + size) + 2)
        then rejected
        else skip_extensions fuel bytes (data_offset + 8 * (1 + size)) nxt')

-- The branch for IPv6.
unfoldable pub process_ipv6 : List ℕ → Located Found
process_ipv6 bytes =
    if ltb (length bytes) 42
    then rejected
    else (byte_at bytes 6 >>= λ (nxt : ℕ).
        skip_extensions (length bytes) bytes 40 nxt >>= λ (data_offset : ℕ).
        found bytes data_offset 8 24 16)

-- `process_ipv4_ipv6`
unfoldable pub process_ipv4_ipv6 : List ℕ → Located Found
process_ipv4_ipv6 [] = rejected
process_ipv4_ipv6 (first ∷ rest) =
    let pt = bit_and first 0xf0 in
    if pt == 0x40
    then process_ipv4 (first ∷ rest) first
    else if pt == 0x60
    then process_ipv6 (first ∷ rest)
    else rejected

-- The types of the link layer that `main` tells apart.
pub data LinkType : Type 0 where
  dlt_null dlt_en10mb dlt_linux_sll dlt_linux_sll2 dlt_raw : LinkType

-- The branch of a type with a header of `hdr_off` bytes, in which two bytes at `i` tell the protocol.
unfoldable pub with_header : List ℕ → ℕ → ℕ → Located ℕ
with_header packet hdr_off i =
    if ltb (length packet) hdr_off
    then rejected
    else (byte_at packet i >>= λ (high : ℕ). byte_at packet (i + 1) >>= λ (low : ℕ).
        if not (high * 2 ^ 8 + low == 0x0800) && not (high * 2 ^ 8 + low == 0x86dd)
        then rejected
        else located hdr_off)

-- Where the datagram starts, by the type.
unfoldable pub header_offset : LinkType → List ℕ → Located ℕ
header_offset dlt_null packet =
    if ltb (length packet) 4
    then rejected
    else (byte_at packet 3 >>= λ (pt : ℕ).
        if not (pt == 2) && (not (pt == 24) && (not (pt == 28) && not (pt == 30)))
        then rejected
        else located 4)
header_offset dlt_en10mb packet = with_header packet 14 12
header_offset dlt_linux_sll packet = with_header packet 16 14
header_offset dlt_linux_sll2 packet = with_header packet 20 0
header_offset dlt_raw packet = located 0

-- What `main` passes to the parser of TCP: where the payload is and how long.
pub record Payload : Type 0 where
  pub payload_off : ℕ
  pub payload_len : ℕ

unfoldable pub locate : LinkType → List ℕ → Located Payload
locate dl_type packet = header_offset dl_type packet >>= λ (hdr_off : ℕ).
    process_ipv4_ipv6 (drop hdr_off packet) >>= λ (f : Found). located (record {
      payload_off = hdr_off + f.start_off;
      payload_len = sub64 (length packet) (hdr_off + f.start_off);
    })
