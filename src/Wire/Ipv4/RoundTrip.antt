-- ===== src/Wire/Ipv4/RoundTrip.antt =====
-- Headers of libsponge/tcp_helpers/ipv4_header.cc written and read.
use sponge_2021fall.Common.{
  ℕ, ◌≡◌, ◌<◌, ◌≤◌, ◌+◌, ◌++◌, ◌-◌, ◌^◌, ◌*◌, [], List, arith, refl, length, ok, take, IsU16, IsU8,
  IsU32, Bool, ap, ltb, false, true, length-append, ◌%◌, ◌/◌, ◌∙◌, ◌==◌, ◌∷◌, if◌then◌else◌, not,
}
use sponge_2021fall.Wire.Parser.{NetParser, bad_checksum, init, put32, put16, put8, no_error}
use sponge_2021fall.Wire.Parser.RoundTrip.{u32-put32, u16-put16, u8-put8}
use sponge_2021fall.Wire.Bytes.{flag, zeros, length-zeros, resize-long, remove_prefix-zeros}
use sponge_2021fall.Wire.Checksum.{add, value}
use sponge_2021fall.Wire.Checksum
use sponge_2021fall.Wire.Ipv4.{
  Ipv4Header, first_byte, fo_val, read_fields, refuse, check_header, parse, serialize, fields,
  ParseResult,
}

-- Version 4, and each field fits its width.
pub record IsValid (h : Ipv4Header) : Type 0 where
  pub ver : h.ver ≡ 4
  pub hlen : (5 ≤ h.hlen) × (h.hlen < 16)
  pub tos : IsU8 h.tos
  pub len : IsU16 h.len
  pub id : IsU16 h.id
  pub offset : h.offset < 2 ^ 13
  pub ttl : IsU8 h.ttl
  pub proto : IsU8 h.proto
  pub cksum : IsU16 h.cksum
  pub src : IsU32 h.src
  pub dst : IsU32 h.dst

-- The ten bytes before the checksum, those after it, and all.
abbrev pub control : Ipv4Header → List ℕ → List ℕ
control h rest = put16 [] (fo_val h) ++ (put8 [] h.ttl ++ (put8 [] h.proto ++ rest))

abbrev pub lead : Ipv4Header → List ℕ → List ℕ
lead h rest =
    put8 [] (first_byte h)
    ++ (put8 [] h.tos ++ (put16 [] h.len ++ (put16 [] h.id ++ control h rest)))

abbrev pub trail : Ipv4Header → List ℕ → List ℕ
trail h rest = put32 [] h.src ++ (put32 [] h.dst ++ rest)

abbrev pub bytes : Ipv4Header → List ℕ → List ℕ
bytes h rest = lead h (put16 [] h.cksum ++ trail h rest)

abbrev pub padding : Ipv4Header → List ℕ
padding h = zeros (4 * h.hlen - 20)

pub serialize-eq : (h : Ipv4Header) → IsValid h → serialize h ≡ ok (bytes h (padding h))
unfolding serialize fields put8 put16 put32
serialize-eq h v =
    let long : ltb (4 * h.hlen) 20 ≡ false = ground (arith, v.hlen) in
    let four : (h.ver == 4) ≡ true = ground (arith, v.ver) in
    rw (four, long) (ap ok (resize-long (4 * h.hlen) (bytes h []) (omega (arith, v.hlen))))

flag-fo_val :
    (h : Ipv4Header)
    → h.offset < 2 ^ 13
    → (flag 14 (fo_val h) ≡ h.df)
      × (flag 13 (fo_val h) ≡ h.mf)
      × (fo_val h % 2 ^ 13 ≡ h.offset)
      × (fo_val h < 2 ^ 16)
flag-fo_val h v = ground arith

read_fields-bytes :
    (h : Ipv4Header) (rest : List ℕ)
    → IsValid h
    → read_fields (init (bytes h rest)) ≡ (h, init rest)
unfolding read_fields
read_fields-bytes h rest v =
    let (df, mf, offset, word) = flag-fo_val h v.offset in
    let after = put16 [] h.cksum ++ trail h rest in
    let ver : first_byte h / 2 ^ 4 ≡ h.ver = omega (arith, v.ver) in
    let hlen : first_byte h % 2 ^ 4 ≡ h.hlen = omega (arith, v.hlen) in
    rw
      (
        u8-put8 (first_byte h)
            (put8 [] h.tos ++ (put16 [] h.len ++ (put16 [] h.id ++ control h after))) (omega arith),
        u8-put8 h.tos (put16 [] h.len ++ (put16 [] h.id ++ control h after)) v.tos,
        u16-put16 h.len (put16 [] h.id ++ control h after) v.len,
        u16-put16 h.id (control h after) v.id,
        u16-put16 (fo_val h) (put8 [] h.ttl ++ (put8 [] h.proto ++ after)) word,
        u8-put8 h.ttl (put8 [] h.proto ++ after) v.ttl,
        u8-put8 h.proto after v.proto,
        u16-put16 h.cksum (trail h rest) v.cksum,
        u32-put32 h.src (put32 [] h.dst ++ rest) v.src,
        u32-put32 h.dst rest v.dst,
        ver,
        hlen,
        df,
        mf,
        offset,
      )
      refl

take-length_append : (s t : List ℕ) → take (length s) (s ++ t) ≡ s
take-length_append [] t = refl
take-length_append (x ∷ s) t = ap (λ r. x ∷ r) (take-length_append s t)

length-bytes : (h : Ipv4Header) (s : List ℕ) → length (bytes h s) ≡ 20 + length s
unfolding put8 put16 put32
length-bytes h s = omega arith

pub bytes-append : (h : Ipv4Header) (s rest : List ℕ) → bytes h (s ++ rest) ≡ bytes h s ++ rest
unfolding put8 put16 put32
bytes-append h s rest = refl

take-bytes :
    (h : Ipv4Header) (rest : List ℕ)
    → IsValid h
    → take (4 * h.hlen) (bytes h (padding h ++ rest)) ≡ bytes h (padding h)
take-bytes h rest v =
    let size : 4 * h.hlen ≡ length (bytes h (padding h)) =
      omega (arith, v.hlen, length-bytes h (padding h), length-zeros (4 * h.hlen - 20)) in
    ap (λ n. take n (bytes h (padding h ++ rest))) size
    ∙ ap (λ s. take (length (bytes h (padding h))) s) (bytes-append h (padding h) rest)
    ∙ take-length_append (bytes h (padding h)) rest

refuse-valid : (h : Ipv4Header) → IsValid h → 4 * h.hlen ≤ h.len → refuse h h.len ≡ no_error
unfolding refuse
refuse-valid h v e = ground (arith, v.ver, v.hlen)

abbrev outcome : Ipv4Header → ParseResult × NetParser → ParseResult × Ipv4Header × NetParser
outcome h r = (r.0, h, r.1)

test-pair :
    (b : Bool) (h : Ipv4Header) (p : NetParser)
    → outcome h (if not b then (bad_checksum, p) else (no_error, p))
      ≡ outcome h (if b then no_error else bad_checksum, p)
test-pair true h p = refl
test-pair false h p = refl

-- The bytes of a header, and the rest of the packet that its length counts, are read: without an
-- error exactly if the checksum is right.
pub parse-bytes :
    (h0 h : Ipv4Header) (rest : List ℕ)
    → IsValid h
    → 4 * h.hlen + length rest ≡ h.len
    → parse h0 (init (bytes h (padding h ++ rest))) ≡ (
      if value (add (Checksum.init 0) (bytes h (padding h))) == 0 then no_error else bad_checksum,
      h,
      init rest,
    )
unfolding parse check_header
parse-bytes h0 h rest v size =
    let all : length (bytes h (padding h ++ rest)) ≡ h.len = omega (
      arith,
      size,
      v.hlen,
      length-bytes h (padding h ++ rest),
      length-append (padding h) rest,
      length-zeros (4 * h.hlen - 20),
    ) in
    let long : ltb h.len 20 ≡ false = ground (arith, v.hlen) in
    let options : h.hlen * 4 - 20 ≡ 4 * h.hlen - 20 = omega arith in
    rw
      (
        all,
        long,
        read_fields-bytes h (padding h ++ rest) v,
        refuse-valid h v (omega (arith, size)),
        take-bytes h rest v,
        options,
        remove_prefix-zeros (4 * h.hlen - 20) rest,
      )
      (test-pair (value (add (Checksum.init 0) (bytes h (padding h))) == 0) h (init rest))
