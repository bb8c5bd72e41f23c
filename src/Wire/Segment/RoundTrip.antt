-- ===== src/Wire/Segment/RoundTrip.antt =====
-- Headers of libsponge/tcp_helpers/tcp_header.cc written and read.
use sponge_2021fall.Common.{
  ℕ, ◌≡◌, ◌<◌, ◌≤◌, ◌+◌, ◌++◌, ◌-◌, ◌^◌, ◌*◌, [], List, arith, refl, length, ok, IsU16, IsU32, ap,
  ltb, false, ◌%◌, ◌/◌, ◌∙◌,
}
use sponge_2021fall.Tcp.Segment.{TcpHeader}
use sponge_2021fall.Wire.Parser.{init, put32, put16, put8, no_error}
use sponge_2021fall.Wire.Parser.RoundTrip.{u32-put32, u16-put16, u8-put8}
use sponge_2021fall.Wire.Segment.{parse, serialize, flags}
use sponge_2021fall.Wire.Bytes.{flag, zeros, length-zeros, resize-long, remove_prefix-zeros}

-- Each field fits its width, and the data offset its four bits.
pub record IsValid (h : TcpHeader) : Type 0 where
  pub sport : IsU16 h.sport
  pub dport : IsU16 h.dport
  pub seqno : IsU32 h.seqno.raw_value
  pub ackno : IsU32 h.ackno.raw_value
  pub doff : (5 ≤ h.doff) × (h.doff < 16)
  pub win : IsU16 h.win
  pub cksum : IsU16 h.cksum
  pub uptr : IsU16 h.uptr

-- The bytes of a header and those that follow it.
abbrev pub tail : TcpHeader → List ℕ → List ℕ
tail h rest = put16 [] h.win ++ (put16 [] h.cksum ++ (put16 [] h.uptr ++ rest))

abbrev pub control : TcpHeader → List ℕ → List ℕ
control h rest = put8 [] (h.doff * 2 ^ 4) ++ (put8 [] (flags h) ++ tail h rest)

abbrev pub numbers : TcpHeader → List ℕ → List ℕ
numbers h rest = put32 [] h.seqno.raw_value ++ (put32 [] h.ackno.raw_value ++ control h rest)

abbrev pub bytes : TcpHeader → List ℕ → List ℕ
bytes h rest = put16 [] h.sport ++ (put16 [] h.dport ++ numbers h rest)

-- The twenty bytes of a header without options.
abbrev pub fixed : TcpHeader → List ℕ
fixed h = bytes h []

pub serialize-eq :
    (h : TcpHeader) → IsValid h → serialize h ≡ ok (bytes h (zeros (4 * h.doff - 20)))
unfolding serialize put8 put16 put32
serialize-eq h v =
    let long : ltb h.doff 5 ≡ false = ground (arith, v.doff) in
    let fits : (h.doff * 2 ^ 4) % 2 ^ 8 ≡ h.doff * 2 ^ 4 = omega (arith, v.doff) in
    rw (long, fits) (ap ok (resize-long (4 * h.doff) (fixed h) (omega (arith, v.doff))))

flag-flags :
    (h : TcpHeader)
    → (flag 5 (flags h) ≡ h.urg)
      × (flag 4 (flags h) ≡ h.ack)
      × (flag 3 (flags h) ≡ h.psh)
      × (flag 2 (flags h) ≡ h.rst)
      × (flag 1 (flags h) ≡ h.syn)
      × (flag 0 (flags h) ≡ h.fin)
      × (flags h < 2 ^ 8)
flag-flags h = ground arith

pub parse-bytes :
    (h : TcpHeader) (rest : List ℕ)
    → IsValid h
    → parse (init (bytes h (zeros (4 * h.doff - 20) ++ rest))) ≡ (no_error, h, init rest)
unfolding parse
parse-bytes h rest v =
    let r = zeros (4 * h.doff - 20) ++ rest in
    let low : ltb h.doff 5 ≡ false = ground (arith, v.doff) in
    let doff : h.doff * 2 ^ 4 / 2 ^ 4 ≡ h.doff = omega arith in
    let (urg, ack, psh, rst, syn, fin, word) = flag-flags h in
    let options : h.doff * 4 - 20 ≡ 4 * h.doff - 20 = omega arith in
    rw
      (
        u16-put16 h.sport (put16 [] h.dport ++ numbers h r) v.sport,
        u16-put16 h.dport (numbers h r) v.dport,
        u32-put32 h.seqno.raw_value (put32 [] h.ackno.raw_value ++ control h r) v.seqno,
        u32-put32 h.ackno.raw_value (control h r) v.ackno,
        u8-put8 (h.doff * 2 ^ 4) (put8 [] (flags h) ++ tail h r) (omega (arith, v.doff)),
        u8-put8 (flags h) (tail h r) word,
        u16-put16 h.win (put16 [] h.cksum ++ (put16 [] h.uptr ++ r)) v.win,
        u16-put16 h.cksum (put16 [] h.uptr ++ r) v.cksum,
        u16-put16 h.uptr r v.uptr,
        doff,
        low,
        options,
        remove_prefix-zeros (4 * h.doff - 20) rest,
        urg,
        ack,
        psh,
        rst,
        syn,
        fin,
      )
      refl

pub bytes-append : (h : TcpHeader) (s rest : List ℕ) → bytes h s ++ rest ≡ bytes h (s ++ rest)
unfolding put8 put16 put32
bytes-append h s rest = refl

pub length-bytes : (h : TcpHeader) (s : List ℕ) → length (bytes h s) ≡ 20 + length s
unfolding put8 put16 put32
length-bytes h s = omega arith

-- A header whose fields fit their widths, with a data offset of at least 5, is serialized to as many
-- bytes as its data offset says. Parsed from those bytes, whatever bytes follow, it is the same
-- header, without an error, and the following bytes are what is left.
pub parse-serialize :
    (h : TcpHeader) (rest : List ℕ)
    → IsValid h
    → (s : List ℕ) × (serialize h ≡ ok s)
      × (length s ≡ 4 * h.doff)
      × (parse (init (s ++ rest)) ≡ (no_error, h, init rest))
parse-serialize h rest v =
    let pad = zeros (4 * h.doff - 20) in
    (
      bytes h pad,
      serialize-eq h v,
      omega (arith, length-bytes h pad, length-zeros (4 * h.doff - 20), v.doff),
      ap (λ s. parse (init s)) (bytes-append h pad rest) ∙ parse-bytes h rest v,
    )
