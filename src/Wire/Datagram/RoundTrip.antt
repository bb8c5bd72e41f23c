-- ===== src/Wire/Datagram/RoundTrip.antt =====
-- Datagrams of libsponge/tcp_helpers/ipv4_datagram.cc written and read.
use sponge_2021fall.Common.{
  if◌then◌else◌, ℕ, ◌≡◌, ◌<◌, ◌+◌, ◌++◌, ◌-◌, ◌^◌, ◌*◌, [], List, arith, refl, length, ok, ap, true,
  ◌%◌, ◌∙◌, sym, ◌==◌, ◌∷◌,
}
use sponge_2021fall.Wire.Parser.{
  NetParser, ParseResult, bad_checksum, init, put32, put16, put8, no_error,
}
use sponge_2021fall.Wire.Parser.Append.{put8-AllBytes, put16-AllBytes, put32-AllBytes}
use sponge_2021fall.Wire.Bytes.{zeros, length-zeros, AllBytes, zeros-AllBytes}
use sponge_2021fall.Wire.Buffer.{concatenate, list_size, append}
use sponge_2021fall.Wire.Buffer.Bytes.{concatenate-append, list_size-length}
use sponge_2021fall.Wire.Checksum.{add, value}
use sponge_2021fall.Wire.Checksum
use sponge_2021fall.Wire.Checksum.Field.{value-field, value-lt}
use sponge_2021fall.Wire.Ipv4.{Ipv4Header, payload_length}
use sponge_2021fall.Wire.Ipv4
use sponge_2021fall.Wire.Ipv4.RoundTrip.{
  bytes-append, IsValid, lead, trail, bytes, padding, serialize-eq, parse-bytes,
}
use sponge_2021fall.Wire.Datagram.{Ipv4Datagram, parse, serialize, sign}

payload_length-eq :
    (h : Ipv4Header) (n : ℕ) → IsValid h → h.len ≡ 4 * h.hlen + n → payload_length h ≡ n
unfolding payload_length
payload_length-eq h n v e = omega (arith, e, v.hlen, v.len)

lead-AllBytes : (h : Ipv4Header) → AllBytes (lead h [])
lead-AllBytes h = put8-AllBytes _ _ (
    put8-AllBytes _ _ (
      put16-AllBytes _ _
        (put16-AllBytes _ _ (put16-AllBytes _ _ (put8-AllBytes _ _ (put8-AllBytes _ [] tt))))))

trail-AllBytes : (h : Ipv4Header) (n : ℕ) → AllBytes (trail h (zeros n))
trail-AllBytes h n = put32-AllBytes _ _ (put32-AllBytes _ _ (zeros-AllBytes n))

length-trail : (h : Ipv4Header) (s : List ℕ) → length (trail h s) ≡ 8 + length s
unfolding put32
length-trail h s = omega arith

length-lead : (h : Ipv4Header) → length (lead h []) ≡ 10
unfolding put8 put16
length-lead h = refl

lead-append : (h : Ipv4Header) (s : List ℕ) → lead h s ≡ lead h [] ++ s
unfolding put8 put16
lead-append h s = refl

-- The header with a number in its checksum field.
abbrev with_cksum : Ipv4Header → ℕ → Ipv4Header
with_cksum h c = record h { cksum = c }

-- The checksum that is computed over the header.
abbrev header_cksum : Ipv4Header → ℕ
header_cksum h = value (add (Checksum.init 0) (bytes (with_cksum h 0) (padding h)))

header-verifies :
    (h : Ipv4Header)
    → IsValid h
    → value (add (Checksum.init 0) (bytes (with_cksum h (header_cksum h)) (padding h))) ≡ 0
header-verifies h v =
    let after = trail h (padding h) in
    let at : (c : ℕ)
        → add (Checksum.init 0) (bytes (with_cksum h c) (padding h))
          ≡ add (Checksum.init 0) (lead h [] ++ (put16 [] c ++ after)) =
      λ c. ap (add (Checksum.init 0)) (lead-append h _) in
    let even : length (lead h []) % 2 ≡ 0 = ap (λ n. n % 2) (length-lead h) in
    let small : 0 + 65280 * (length (lead h []) + length after) + 2 * 0xffff < 2 ^ 32 =
      omega (
        arith,
        length-lead h,
        length-trail h (padding h),
        length-zeros (4 * h.hlen - 20),
        v.hlen,
      ) in
    ap value (at (header_cksum h))
    ∙ ap (λ c. value (add (Checksum.init 0) (lead h [] ++ (put16 [] c ++ after)))) (ap value (at 0))
    ∙ value-field 0 (lead h []) after even (lead-AllBytes h) (trail-AllBytes h (4 * h.hlen - 20))
        small

valid-cksum : (h : Ipv4Header) (c : ℕ) → c < 2 ^ 16 → IsValid h → IsValid (with_cksum h c)
valid-cksum h c b v = record {
  ver = v.ver;
  hlen = v.hlen;
  tos = v.tos;
  len = v.len;
  id = v.id;
  offset = v.offset;
  ttl = v.ttl;
  proto = v.proto;
  cksum = b;
  src = v.src;
  dst = v.dst;
}

-- `IPv4Datagram::parse` does not look at what the header's parser says. A datagram of version 4
-- whose fields fit their widths, whose length counts its header and its payload, and whose checksum
-- is any number is parsed without an error, also where the parser of the header says that the
-- checksum is bad.
pub parse-unverified :
    (d0 : Ipv4Datagram) (h : Ipv4Header) (rest : List ℕ)
    → IsValid h
    → 4 * h.hlen + length rest ≡ h.len
    → (parse d0 (bytes h (padding h ++ rest))
        ≡ (no_error, record { header = h; payload = rest ∷ [] }))
      × ((Ipv4.parse d0.header (init (bytes h (padding h ++ rest)))).0 ≡ (
          if value (add (Checksum.init 0) (bytes h (padding h))) == 0
          then no_error
          else bad_checksum))
unfolding parse
parse-unverified d0 h rest v e =
    let size : payload_length h ≡ length rest = payload_length-eq h (length rest) v (sym e) in
    let same : (length rest == length rest) ≡ true = ground arith in
    (
      rw (parse-bytes d0.header h rest v e, size, same) refl,
      ap (λ (r : ParseResult × Ipv4Header × NetParser). r.0) (parse-bytes d0.header h rest v e),
    )

-- A datagram of version 4 whose fields fit their widths and whose length counts its header and its
-- payload is serialized. The bytes that it shows are parsed without an error to the same datagram,
-- with the checksum that was computed and the payload in one buffer, and the parser of the header
-- finds no error in them.
pub parse_datagram-serialize :
    (d0 d : Ipv4Datagram)
    → IsValid d.header
    → d.header.len ≡ 4 * d.header.hlen + length (concatenate d.payload)
    → (c : ℕ) × (bufs : List (List ℕ)) × (serialize d ≡ ok bufs)
      × (parse d0 (concatenate bufs) ≡ (
        no_error,
        record { header = record (d.header) { cksum = c }; payload = concatenate d.payload ∷ [] },
      ))
      × ((Ipv4.parse d0.header (init (concatenate bufs))).0 ≡ no_error)
unfolding serialize sign append
parse_datagram-serialize d0 d v e =
    let h = d.header in
    let c = header_cksum h in
    let rest = concatenate d.payload in
    let signed = bytes (with_cksum h c) (padding h) in
    let size : payload_length h ≡ length rest = payload_length-eq h (length rest) v e in
    let list : list_size d.payload ≡ length rest =
      list_size-length d.payload (omega (arith, e, v.len)) in
    let same : (length rest == length rest) ≡ true = ground arith in
    let valid = valid-cksum h c (value-lt _) v in
    let (read, header) = parse-unverified d0 (with_cksum h c) rest valid (sym e) in
    let shown : concatenate (signed ∷ d.payload) ≡ bytes (with_cksum h c) (padding h ++ rest) =
      concatenate-append signed d.payload ∙ sym (bytes-append (with_cksum h c) (padding h) rest) in
    (
      c,
      signed ∷ d.payload,
      rw
          (
            list,
            size,
            same,
            serialize-eq (with_cksum h 0) (valid-cksum h 0 (omega arith) v),
            serialize-eq (with_cksum h c) valid,
          )
          refl,
      rw (shown) read,
      rw (shown) (
          header ∙ ap (λ (n : ℕ). if n == 0 then no_error else bad_checksum) (header-verifies h v)),
    )
