-- ===== src/Wire/Ethernet/RoundTrip.antt =====
-- Frames of libsponge/tcp_helpers/ethernet_frame.cc written and read.
use sponge_2021fall.Common.{
  ℕ, ◌≡◌, ◌++◌, ◌∙◌, [], ◌∷◌, List, arith, refl, append_assoc, append-nil, length, IsU16, zero, suc,
  sym, ltb, false, length-append,
}
use sponge_2021fall.Wire.Bytes.{AllBytes}
use sponge_2021fall.Wire.Parser.{init, no_error, put16}
use sponge_2021fall.Wire.Parser.RoundTrip.{u16-put16}
use sponge_2021fall.Wire.Parser.Append.{put16-append, u8-byte, put8-byte}
use sponge_2021fall.Wire.Buffer.Bytes.{concatenate-append}
use sponge_2021fall.Wire.Buffer.{concatenate, append}
use sponge_2021fall.Wire.Ethernet.{
  EthernetAddress, EthernetHeader, EthernetFrame, read_bytes, put_bytes, parse_header,
  serialize_header, parse, serialize, header_length,
}

abbrev pub IsAddress : EthernetAddress → Type 0
IsAddress a = (length a ≡ 6) × AllBytes a

pub put_bytes-append : (s bytes : List ℕ) → AllBytes bytes → put_bytes s bytes ≡ s ++ bytes
unfolding put_bytes
put_bytes-append s [] h = sym (append-nil s)
put_bytes-append s (byte ∷ bytes) h =
    rw (put8-byte s byte h.0)
      (put_bytes-append (s ++ byte ∷ []) bytes h.1 ∙ append_assoc s (byte ∷ []) bytes)

pub read_bytes-append :
    (n : ℕ) (bytes rest : List ℕ)
    → length bytes ≡ n
    → AllBytes bytes
    → read_bytes n (init (bytes ++ rest)) ≡ (bytes, init rest)
unfolding read_bytes
read_bytes-append zero [] rest e h = refl
read_bytes-append zero (byte ∷ bytes) rest e h = absurd (omega arith)
read_bytes-append (suc n) [] rest e h = absurd (omega arith)
read_bytes-append (suc n) (byte ∷ bytes) rest e h =
    rw (u8-byte byte (bytes ++ rest) h.0, read_bytes-append n bytes rest (omega arith) h.1) refl

pub record IsValid (h : EthernetHeader) : Type 0 where
  pub dst : IsAddress h.dst
  pub src : IsAddress h.src
  pub type : IsU16 h.type

serialize_header-eq :
    (h : EthernetHeader) → IsValid h → serialize_header h ≡ h.dst ++ (h.src ++ put16 [] h.type)
unfolding serialize_header
serialize_header-eq h v =
    rw
      (
        put_bytes-append [] h.dst (v.dst.1),
        put_bytes-append h.dst h.src (v.src.1),
        put16-append (h.dst ++ h.src) h.type,
      )
      (append_assoc h.dst h.src _)

length_bytes :
    (h : EthernetHeader) (rest : List ℕ)
    → IsValid h
    → ltb (length (h.dst ++ (h.src ++ (put16 [] h.type ++ rest)))) header_length ≡ false
unfolding put16
length_bytes h rest v = ground (
  arith,
  v.dst,
  v.src,
  length-append h.dst (h.src ++ (put16 [] h.type ++ rest)),
  length-append h.src (put16 [] h.type ++ rest),
)

parse_header-bytes :
    (h0 h : EthernetHeader) (rest : List ℕ)
    → IsValid h
    → parse_header h0 (init (h.dst ++ (h.src ++ (put16 [] h.type ++ rest))))
      ≡ (no_error, h, init rest)
unfolding parse_header
parse_header-bytes h0 h rest v =
    let after = h.src ++ (put16 [] h.type ++ rest) in
    let long : ltb (length (h.dst ++ after)) header_length ≡ false = length_bytes h rest v in
    rw
      (
        long,
        read_bytes-append 6 h.dst after (v.dst.0) (v.dst.1),
        read_bytes-append 6 h.src (put16 [] h.type ++ rest) (v.src.0) (v.src.1),
        u16-put16 h.type rest v.type,
      )
      refl

-- A frame with two addresses of six bytes and a type of 16 bits, put on the wire and read from there,
-- is the same frame, without an error. Its payload comes in one buffer.
pub parse_frame-serialize :
    (f0 f : EthernetFrame)
    → IsValid f.header
    → parse f0 (concatenate (serialize f))
      ≡ (no_error, record { header = f.header; payload = concatenate f.payload ∷ [] })
unfolding parse serialize append
parse_frame-serialize f0 f v =
    rw
      (
        concatenate-append (serialize_header f.header) f.payload,
        serialize_header-eq f.header v,
        append_assoc f.header.dst (f.header.src ++ put16 [] f.header.type) (concatenate f.payload),
        append_assoc f.header.src (put16 [] f.header.type) (concatenate f.payload),
        parse_header-bytes f0.header f.header (concatenate f.payload) v,
      )
      refl
