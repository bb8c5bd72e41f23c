-- ===== src/UdpTcpdump/Bounds.antt =====
-- What apps/udp_tcpdump.cc reads of a packet.
use sponge_2021fall.Common.{
  ℕ, zero, suc, ◌≡◌, ◌≤◌, ◌<◌, ◌+◌, ◌*◌, ◌-◌, ◌^◌, refl, arith, Bool, true, false, not, ◌&&◌, List,
  [], ◌∷◌, length, take, drop, bit_and, ltb, ◌==◌, if◌then◌else◌, sub64, ap, ◌∙◌, ◌⊎◌, inl, inr,
  Option, none, some,
}
use native.Mathlib.Decide.{dec_le}
use sponge_2021fall.UdpTcpdump.{
  Located, rejected, overrun, located, ◌>>=◌, byte_at, bytes_at, Found, found, process_ipv4,
  skip_extensions, process_ipv6, process_ipv4_ipv6, LinkType, dlt_null, dlt_en10mb, dlt_linux_sll,
  dlt_linux_sll2, dlt_raw, with_header, header_offset, locate, Payload,
}

-- No reading has passed the end, and what is located has `P`.
abbrev pub Within : {A : Type 0} → (A → Type 0) → Located A → Type 0
Within P rejected = Unit {0}
Within P overrun = ⊥
Within P (located a) = P a

bind-Within :
    {A B : Type 0} (P : A → Type 0) (Q : B → Type 0) (l : Located A) (f : A → Located B)
    → Within P l
    → ((a : A) → P a → Within Q (f a))
    → Within Q (l >>= f)
bind-Within P Q rejected f h k = tt
bind-Within P Q overrun f h k = absurd h
bind-Within P Q (located a) f h k = k a h

if-Within :
    {A : Type 0} (P : A → Type 0) (b : Bool) (l m : Located A)
    → (b ≡ true → Within P l)
    → (b ≡ false → Within P m)
    → Within P (if b then l else m)
if-Within P true l m h k = h refl
if-Within P false l m h k = k refl

byte_at-Within :
    (bytes : List ℕ) (i : ℕ) → i < length bytes → Within (λ b. Unit {0}) (byte_at bytes i)
unfolding byte_at
byte_at-Within [] i h = absurd (omega arith)
byte_at-Within (b ∷ bytes) zero h = tt
byte_at-Within (b ∷ bytes) (suc i) h = byte_at-Within bytes i (omega arith)

bytes_at-Within :
    (bytes : List ℕ) (i n : ℕ)
    → i + n ≤ length bytes
    → Within (λ s. s ≡ take n (drop i bytes)) (bytes_at bytes i n)
unfolding bytes_at
bytes_at-Within bytes i n h =
    if-Within (λ s. s ≡ take n (drop i bytes)) (ltb (length bytes) (i + n)) _ _
      (λ e. absurd (ground (arith, e))) (λ e. refl)

map-Within :
    {A : Type 0} (P Q : A → Type 0) (l : Located A)
    → Within P l
    → ((a : A) → P a → Q a)
    → Within Q l
map-Within P Q rejected h k = tt
map-Within P Q overrun h k = h
map-Within P Q (located a) h k = k a h

skip_extensions-Within :
    (fuel : ℕ) (bytes : List ℕ) (data_offset nxt : ℕ)
    → data_offset + 2 ≤ length bytes
    → length bytes < fuel + data_offset
    → Within
        (λ n. (data_offset ≤ n) × (n + 2 ≤ length bytes))
        (skip_extensions fuel bytes data_offset nxt)
unfolding skip_extensions
skip_extensions-Within zero bytes data_offset nxt h enough = absurd (omega arith)
skip_extensions-Within (suc fuel) bytes data_offset nxt h enough =
    if-Within _ (nxt == 0x11) _ _ (λ e. (omega arith, h))
      (λ e.
        if-Within _ (not (nxt == 0) && (not (nxt == 43) && not (nxt == 60))) _ _ (λ e. tt)
          (λ e.
            bind-Within (λ b. Unit {0}) _ (byte_at bytes data_offset) _
              (byte_at-Within bytes data_offset (omega arith))
              (λ nxt' u.
                bind-Within (λ b. Unit {0}) _ (byte_at bytes (data_offset + 1)) _
                  (byte_at-Within bytes (data_offset + 1) (omega arith))
                  (λ size v.
                    if-Within _ (ltb (length bytes) (data_offset + 8 * (1 + size) + 2)) _ _
                      (λ e. tt)
                      (λ e.
                        map-Within _ _
                          (skip_extensions fuel bytes (data_offset + 8 * (1 + size)) nxt')
                          (skip_extensions-Within fuel bytes (data_offset + 8 * (1 + size)) nxt'
                            (ground (arith, e)) (omega arith))
                          (λ n k. (omega (arith, k.0), k.1)))))))

-- What is located in an IPv6 packet.
pub record FoundIpv6 (bytes : List ℕ) (f : Found) : Type 0 where
  pub past_headers : 48 ≤ f.start_off
  pub near_end : f.start_off ≤ length bytes + 6
  pub src : f.src_addr ≡ take 16 (drop 8 bytes)
  pub dst : f.dst_addr ≡ take 16 (drop 24 bytes)

-- The loop over the extension headers of an IPv6 packet comes to its end, and no reading passes the
-- end of the packet, whatever its bytes. Where a payload is located, it is past the fixed header
-- and a UDP header, and at most six bytes past the end, and the addresses are those of the packet.
pub process_ipv6-Within : (bytes : List ℕ) → Within (FoundIpv6 bytes) (process_ipv6 bytes)
unfolding process_ipv6 found
process_ipv6-Within bytes =
    if-Within (FoundIpv6 bytes) (ltb (length bytes) 42) _ _ (λ e. tt)
      (λ e.
        let long : 42 ≤ length bytes = ground (arith, e) in
        bind-Within (λ b. Unit {0}) _ (byte_at bytes 6) _ (byte_at-Within bytes 6 (omega arith))
          (λ nxt u.
            bind-Within (λ n. (40 ≤ n) × (n + 2 ≤ length bytes)) _
              (skip_extensions (length bytes) bytes 40 nxt) _
              (skip_extensions-Within (length bytes) bytes 40 nxt (omega arith) (omega arith))
              (λ n k.
                bind-Within (λ s. s ≡ take 16 (drop 8 bytes)) _ (bytes_at bytes 8 16) _
                  (bytes_at-Within bytes 8 16 (omega arith))
                  (λ src p.
                    bind-Within (λ d. d ≡ take 16 (drop 24 bytes)) _ (bytes_at bytes 24 16) _
                      (bytes_at-Within bytes 24 16 (omega arith))
                      (λ dst q. record {
                        past_headers = omega (arith, k.0);
                        near_end = omega (arith, k.1);
                        src = p;
                        dst = q;
                      })))))

byte_at-overrun : (bytes : List ℕ) (i : ℕ) → length bytes ≤ i → byte_at bytes i ≡ overrun
unfolding byte_at
byte_at-overrun [] i h = refl
byte_at-overrun (b ∷ bytes) zero h = absurd (omega arith)
byte_at-overrun (b ∷ bytes) (suc i) h = byte_at-overrun bytes i (omega arith)

-- An IPv4 packet of at most nine bytes is read past its end, if its header is no longer than the
-- packet by the length that its first byte tells: the length is not tested against the fixed
-- header of twenty bytes.
pub process_ipv4-overrun :
    (bytes : List ℕ) (first : ℕ)
    → length bytes ≤ 9
    → bit_and first 0x0f * 4 ≤ length bytes
    → process_ipv4 bytes first ≡ overrun
unfolding process_ipv4
process_ipv4-overrun bytes first short told =
    let fits : ltb (length bytes) (bit_and first 0x0f * 4) ≡ false = ground (arith, told) in
    rw (fits, byte_at-overrun bytes 9 short) refl

with_header-Within :
    (packet : List ℕ) (hdr_off i : ℕ)
    → i + 1 < hdr_off
    → Within (λ n. n ≤ length packet) (with_header packet hdr_off i)
unfolding with_header
with_header-Within packet hdr_off i h =
    if-Within _ (ltb (length packet) hdr_off) _ _ (λ e. tt)
      (λ e.
        let long : hdr_off ≤ length packet = ground (arith, e) in
        bind-Within (λ b. Unit {0}) _ (byte_at packet i) _ (byte_at-Within packet i (omega arith))
          (λ high u.
            bind-Within (λ b. Unit {0}) _ (byte_at packet (i + 1)) _
              (byte_at-Within packet (i + 1) (omega arith))
              (λ low v.
                if-Within _
                  (not (high * 2 ^ 8 + low == 0x0800) && not (high * 2 ^ 8 + low == 0x86dd)) _ _
                  (λ e. tt) (λ e. long))))

-- For every type of the link layer and every packet, no reading of the link header passes the end,
-- and the datagram starts within the packet or at its end.
pub header_offset-Within :
    (dl_type : LinkType) (packet : List ℕ)
    → Within (λ n. n ≤ length packet) (header_offset dl_type packet)
unfolding header_offset
header_offset-Within dlt_null packet =
    if-Within _ (ltb (length packet) 4) _ _ (λ e. tt)
      (λ e.
        let long : 4 ≤ length packet = ground (arith, e) in
        bind-Within (λ b. Unit {0}) _ (byte_at packet 3) _ (byte_at-Within packet 3 (omega arith))
          (λ pt u.
            if-Within _ (not (pt == 2) && (not (pt == 24) && (not (pt == 28) && not (pt == 30)))) _
              _ (λ e. tt) (λ e. long)))
header_offset-Within dlt_en10mb packet = with_header-Within packet 14 12 (omega arith)
header_offset-Within dlt_linux_sll packet = with_header-Within packet 16 14 (omega arith)
header_offset-Within dlt_linux_sll2 packet = with_header-Within packet 20 0 (omega arith)
header_offset-Within dlt_raw packet = omega arith

abbrev get_elem? : List ℕ → ℕ → Option ℕ
get_elem? [] i = none
get_elem? (b ∷ bytes) zero = some b
get_elem? (b ∷ bytes) (suc i) = get_elem? bytes i

byte_at-get_elem? :
    (bytes : List ℕ) (i b : ℕ) → get_elem? bytes i ≡ some b → byte_at bytes i ≡ located b
unfolding byte_at
byte_at-get_elem? [] i b e = cc
byte_at-get_elem? (c ∷ bytes) zero b e = cc
byte_at-get_elem? (c ∷ bytes) (suc i) b e = byte_at-get_elem? bytes i b e

bytes_at-located :
    (bytes : List ℕ) (i n : ℕ)
    → i + n ≤ length bytes
    → bytes_at bytes i n ≡ located (take n (drop i bytes))
unfolding bytes_at
bytes_at-located bytes i n h =
    let inside : ltb (length bytes) (i + n) ≡ false = ground (arith, h) in rw (inside) refl

-- An IPv4 packet of twenty bytes or more, of which the first is `first` and the tenth tells UDP.
pub record UdpIpv4 (packet : List ℕ) (first : ℕ) : Type 0 where
  pub first_byte : get_elem? packet 0 ≡ some first
  pub version : bit_and first 0xf0 ≡ 0x40
  pub protocol : get_elem? packet 9 ≡ some 0x11
  pub fixed : 20 ≤ length packet
  pub header : bit_and first 0x0f * 4 ≤ length packet

process_ipv4-found :
    (packet : List ℕ) (first : ℕ)
    → UdpIpv4 packet first
    → process_ipv4 packet first
      ≡ located (record {
        start_off = bit_and first 0x0f * 4 + 8;
        src_addr = take 4 (drop 12 packet);
        dst_addr = take 4 (drop 16 packet);
      })
unfolding process_ipv4 found
process_ipv4-found packet first u =
    let inside : ltb (length packet) (bit_and first 0x0f * 4) ≡ false = ground (arith, u.header) in
    rw
      (
        inside,
        byte_at-get_elem? packet 9 0x11 u.protocol,
        bytes_at-located packet 12 4 (omega (arith, u.fixed)),
        bytes_at-located packet 16 4 (omega (arith, u.fixed)),
      )
      refl

process_ipv4_ipv6-found :
    (packet : List ℕ) (first : ℕ)
    → UdpIpv4 packet first
    → process_ipv4_ipv6 packet ≡ process_ipv4 packet first
unfolding process_ipv4_ipv6
process_ipv4_ipv6-found [] first u = absurd (omega (arith, u.fixed))
process_ipv4_ipv6-found (b ∷ rest) first u =
    let same : b ≡ first = ap (λ o. elim o [ none ↦ b | some c ↦ c ]) u.first_byte in
    let four : (bit_and b 0xf0 == 0x40) ≡ true =
      ground (arith, ap (λ c. bit_and c 0xf0) same, u.version) in
    rw four (ap (λ c. process_ipv4 (b ∷ rest) c) same)

-- Of an IPv4 packet with UDP, captured without a link header and shorter than 2 ^ 64 bytes, the
-- payload is taken to start eight bytes past the IPv4 header. Its length is what is left of the
-- packet from there on, but for a packet that ends before, which is not skipped, it is nearly
-- 2 ^ 64: by as many less as bytes are missing.
pub locate_past_end :
    (packet : List ℕ) (first : ℕ)
    → UdpIpv4 packet first
    → length packet + 8 < 2 ^ 64
    → (payload : Payload) × (locate dlt_raw packet ≡ located payload)
      × (payload.payload_off ≡ bit_and first 0x0f * 4 + 8)
      × (((bit_and first 0x0f * 4 + 8 ≤ length packet)
            × (payload.payload_off + payload.payload_len ≡ length packet))
          ⊎ ((length packet < bit_and first 0x0f * 4 + 8)
              × (payload.payload_len ≡ 2 ^ 64 - (bit_and first 0x0f * 4 + 8 - length packet))))
unfolding locate header_offset
locate_past_end packet first u word =
    let off = bit_and first 0x0f * 4 + 8 in
    let there : process_ipv4_ipv6 packet
        ≡ located (record {
          start_off = off;
          src_addr = take 4 (drop 12 packet);
          dst_addr = take 4 (drop 16 packet);
        }) =
      process_ipv4_ipv6-found packet first u ∙ process_ipv4-found packet first u in
    (
      record { payload_off = 0 + off; payload_len = sub64 (length packet) (0 + off) },
      rw there refl,
      omega arith,
      elim (dec_le off (length packet)) [
        | yes le ↦ inl (le, omega (arith, u.header))
        | no gt ↦ inr (omega arith, omega (arith, u.header))
      ],
    )
