-- ===== src/Wire/TcpSegment/RoundTrip.antt =====
-- Segments of libsponge/tcp_helpers/tcp_segment.cc written and read.
use sponge_2021fall.Common.{
  ℕ, ◌≡◌, ◌<◌, ◌+◌, ◌++◌, ◌-◌, ◌^◌, ◌*◌, [], List, arith, refl, length, ok, ap, length-append, ◌%◌,
  ◌∙◌, sym, ◌∷◌,
}
use sponge_2021fall.Wire.Parser.{put32, put16, put8, no_error}
use sponge_2021fall.Wire.Parser.Append.{put8-AllBytes, put16-AllBytes, put32-AllBytes}
use sponge_2021fall.Wire.Bytes.{zeros, length-zeros, AllBytes, zeros-AllBytes, append-AllBytes}
use sponge_2021fall.Wire.Buffer.{concatenate}
use sponge_2021fall.Wire.Buffer.Bytes.{concatenate-append}
use sponge_2021fall.Wire.Checksum.{add, value}
use sponge_2021fall.Wire.Checksum
use sponge_2021fall.Wire.Checksum.Field.{value-field, value-lt}
use sponge_2021fall.Wire.Checksum.Sum.{add-append}
use sponge_2021fall.Tcp.Segment.{TcpHeader, TcpSegment}
use sponge_2021fall.Wire.Segment.{flags}
use sponge_2021fall.Wire.Segment.RoundTrip.{
  IsValid, bytes, serialize-eq, parse-bytes, bytes-append, length-bytes,
}
use sponge_2021fall.Wire.TcpSegment.{parse, serialize, checksum}

-- The sixteen bytes before the checksum, and those after it.
abbrev lead : TcpHeader → List ℕ → List ℕ
lead h rest =
    put16 [] h.sport
    ++ (put16 [] h.dport
        ++ (put32 [] h.seqno.raw_value
            ++ (put32 [] h.ackno.raw_value
                ++ (put8 [] (h.doff * 2 ^ 4) ++ (put8 [] (flags h) ++ (put16 [] h.win ++ rest))))))

abbrev trail : TcpHeader → List ℕ → List ℕ
trail h payload = put16 [] h.uptr ++ (zeros (4 * h.doff - 20) ++ payload)

lead-AllBytes : (h : TcpHeader) → AllBytes (lead h [])
lead-AllBytes h = put16-AllBytes _ _ (
    put16-AllBytes _ _ (
      put32-AllBytes _ _
        (put32-AllBytes _ _ (put8-AllBytes _ _ (put8-AllBytes _ _ (put16-AllBytes _ [] tt))))))

trail-AllBytes : (h : TcpHeader) (payload : List ℕ) → AllBytes payload → AllBytes (trail h payload)
trail-AllBytes h payload b =
    put16-AllBytes _ _
      (append-AllBytes (zeros (4 * h.doff - 20)) payload (zeros-AllBytes (4 * h.doff - 20)) b)

length-lead : (h : TcpHeader) → length (lead h []) ≡ 16
unfolding put8 put16 put32
length-lead h = refl

length-trail :
    (h : TcpHeader) (payload : List ℕ)
    → length (trail h payload) ≡ 2 + (4 * h.doff - 20) + length payload
unfolding put16
length-trail h payload =
    omega (arith, length-append (zeros (4 * h.doff - 20)) payload, length-zeros (4 * h.doff - 20))

lead-append : (h : TcpHeader) (s : List ℕ) → lead h s ≡ lead h [] ++ s
unfolding put8 put16 put32
lead-append h s = refl

abbrev with_cksum : TcpHeader → ℕ → TcpHeader
with_cksum h c = record h { cksum = c }

abbrev padded : TcpHeader → List ℕ
padded h = bytes h (zeros (4 * h.doff - 20))

-- The bytes of a segment, around its checksum.
padded-append :
    (h : TcpHeader) (c : ℕ) (payload : List ℕ)
    → padded (with_cksum h c) ++ payload ≡ lead h [] ++ (put16 [] c ++ trail h payload)
padded-append h c payload =
    bytes-append (with_cksum h c) (zeros (4 * h.doff - 20)) payload ∙ lead-append h _

segment_cksum : TcpSegment → ℕ → ℕ
segment_cksum seg s = checksum (padded (with_cksum seg.header 0)) seg.payload s

segment-verifies :
    (seg : TcpSegment) (s : ℕ)
    → IsValid seg.header
    → AllBytes seg.payload
    → s < 2 ^ 20
    → 4 * seg.header.doff + length seg.payload < 2 ^ 16
    → value (
        add (Checksum.init s) (padded (with_cksum seg.header (segment_cksum seg s)) ++ seg.payload))
      ≡ 0
unfolding checksum segment_cksum
segment-verifies seg s v b low size =
    let h = seg.header in
    let after = trail h seg.payload in
    let even : length (lead h []) % 2 ≡ 0 = ap (λ n. n % 2) (length-lead h) in
    let small : s + 65280 * (length (lead h []) + length after) + 2 * 0xffff < 2 ^ 32 =
      omega (arith, length-lead h, length-trail h seg.payload, v.doff) in
    let zeroed : add (add (Checksum.init s) (padded (with_cksum h 0))) seg.payload
        ≡ add (Checksum.init s) (lead h [] ++ (put16 [] 0 ++ after)) =
      sym (add-append (padded (with_cksum h 0)) seg.payload (Checksum.init s))
      ∙ ap (add (Checksum.init s)) (padded-append h 0 seg.payload) in
    ap (λ t. value (add (Checksum.init s) t)) (padded-append h (segment_cksum seg s) seg.payload)
    ∙ ap (λ c. value (add (Checksum.init s) (lead h [] ++ (put16 [] c ++ after)))) (ap value zeroed)
    ∙ value-field s (lead h []) after even (lead-AllBytes h) (trail-AllBytes h seg.payload b) small

valid-cksum : (h : TcpHeader) (c : ℕ) → c < 2 ^ 16 → IsValid h → IsValid (with_cksum h c)
valid-cksum h c b v = record {
  sport = v.sport;
  dport = v.dport;
  seqno = v.seqno;
  ackno = v.ackno;
  doff = v.doff;
  win = v.win;
  cksum = b;
  uptr = v.uptr;
}

cksum-lt : (seg : TcpSegment) (s : ℕ) → segment_cksum seg s < 2 ^ 16
unfolding segment_cksum checksum
cksum-lt seg s = value-lt _

length-segment :
    (h : TcpHeader) (payload : List ℕ)
    → IsValid h
    → length (padded h ++ payload) ≡ 4 * h.doff + length payload
length-segment h payload v = omega (
  arith,
  v.doff,
  length-append (padded h) payload,
  length-bytes h (zeros (4 * h.doff - 20)),
  length-zeros (4 * h.doff - 20),
)

-- A segment whose fields fit their widths, with a data offset of at least 5 and less than 65536
-- bytes, is serialized with the checksum of a pseudo header. The bytes that it shows are parsed with
-- the same pseudo header, without an error, to the same segment with the checksum that was computed.
pub parse_segment-serialize :
    (seg0 seg : TcpSegment) (s : ℕ)
    → IsValid seg.header
    → AllBytes seg.payload
    → s < 2 ^ 20
    → 4 * seg.header.doff + length seg.payload < 2 ^ 16
    → (c : ℕ) × (bufs : List (List ℕ)) × (serialize seg s ≡ ok bufs)
      × (length (concatenate bufs) ≡ 4 * seg.header.doff + length seg.payload)
      × (parse seg0 (concatenate bufs) s ≡ (
        no_error,
        record { header = record (seg.header) { cksum = c }; payload = seg.payload },
      ))
unfolding serialize parse concatenate segment_cksum
parse_segment-serialize seg0 seg s v b low size =
    let h = seg.header in
    let c = segment_cksum seg s in
    let valid = valid-cksum h c (cksum-lt seg s) v in
    (
      c,
      padded (with_cksum h c) ∷ seg.payload ∷ [],
      rw
          (
            serialize-eq (with_cksum h 0) (valid-cksum h 0 (omega arith) v),
            serialize-eq (with_cksum h c) valid,
          )
          refl,
      ap length (concatenate-append (padded (with_cksum h c)) (seg.payload ∷ []))
          ∙ length-segment (with_cksum h c) seg.payload valid,
      rw
          (
            concatenate-append (padded (with_cksum h c)) (seg.payload ∷ []),
            segment-verifies seg s v b low size,
            bytes-append (with_cksum h c) (zeros (4 * h.doff - 20)) seg.payload,
            parse-bytes (with_cksum h c) seg.payload valid,
          )
          refl,
    )
