-- ===== src/UdpTcpdump/Examples.antt =====
-- A packet without a link header: an IPv4 header that is followed by nothing.
use sponge_2021fall.Common.{
  ℕ, ◌≡◌, refl, arith, List, [], ◌∷◌, ◌++◌, ◌-◌, ◌^◌, ◌*◌, ◌+◌, ◌≤◌, ◌<◌, ◌⊎◌, bit_and,
}
use sponge_2021fall.UdpTcpdump.{
  located, process_ipv4, process_ipv4_ipv6, found, byte_at, bytes_at, locate, skip_extensions,
  dlt_raw, process_ipv6, header_offset, Payload,
}
use sponge_2021fall.UdpTcpdump.Bounds.{
  UdpIpv4, Within, FoundIpv6, process_ipv6-Within, locate_past_end,
}

abbrev header_only : List ℕ
header_only =
    0x45 ∷ 0 ∷ 0 ∷ 20 ∷ 0 ∷ 0 ∷ 0 ∷ 0 ∷ 64 ∷ 0x11 ∷ 0 ∷ 0 ∷ 10 ∷ 0 ∷ 0 ∷ 1 ∷ 10 ∷ 0 ∷ 0 ∷ 2 ∷ []

header_only-UdpIpv4 : UdpIpv4 header_only 0x45
header_only-UdpIpv4 = record {
  first_byte = refl;
  version = refl;
  protocol = refl;
  fixed = omega arith;
  header = omega arith;
}

locate_past_end_example :
    (payload : Payload) × (locate dlt_raw header_only ≡ located payload)
    × (payload.payload_off ≡ bit_and 0x45 0x0f * 4 + 8)
    × (((bit_and 0x45 0x0f * 4 + 8 ≤ 20) × (payload.payload_off + payload.payload_len ≡ 20))
        ⊎ ((20 < bit_and 0x45 0x0f * 4 + 8)
            × (payload.payload_len ≡ 2 ^ 64 - (bit_and 0x45 0x0f * 4 + 8 - 20))))
locate_past_end_example = locate_past_end header_only 0x45 header_only-UdpIpv4 (omega arith)

locate_run :
    locate dlt_raw header_only ≡ located (record { payload_off = 28; payload_len = 2 ^ 64 - 8 })
unfolding locate header_offset process_ipv4_ipv6 process_ipv4 found byte_at bytes_at
locate_run = refl

-- An IPv6 packet with a hop-by-hop header of eight bytes before the UDP header, and two bytes of
-- payload.
abbrev address : ℕ → List ℕ
address last = 0xfd ∷ 0 ∷ 0 ∷ 0 ∷ 0 ∷ 0 ∷ 0 ∷ 0 ∷ 0 ∷ 0 ∷ 0 ∷ 0 ∷ 0 ∷ 0 ∷ 0 ∷ last ∷ []

abbrev extended : List ℕ
extended =
    (0x60 ∷ 0 ∷ 0 ∷ 0 ∷ 0 ∷ 18 ∷ 0 ∷ 64 ∷ [])
    ++ (address 1
        ++ (address 2
            ++ ((0x11 ∷ 0 ∷ 1 ∷ 4 ∷ 0 ∷ 0 ∷ 0 ∷ 0 ∷ [])
                ++ (0 ∷ 1 ∷ 0 ∷ 2 ∷ 0 ∷ 10 ∷ 0 ∷ 0 ∷ 7 ∷ 8 ∷ []))))

process_ipv6_run :
    process_ipv6 extended
    ≡ located (record { start_off = 56; src_addr = address 1; dst_addr = address 2 })
unfolding process_ipv6 skip_extensions found byte_at bytes_at
process_ipv6_run = refl

process_ipv6-Within_example : Within (FoundIpv6 extended) (process_ipv6 extended)
process_ipv6-Within_example = process_ipv6-Within extended
