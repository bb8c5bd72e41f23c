-- ===== src/Tcp/Sender/Progress.antt =====
-- What a round of `TCPSender::fill_window` in libsponge/tcp_sender.cc leaves to be sent.
use sponge_2021fall.Common.{
  ℕ, length, ◌≡◌, ◌≤◌, arith, true, ◌<◌, ◌⊎◌, false, min, ◌∙◌, sub64, ap, length-drop, ◌+◌, ◌≢◌,
  sym, ◌==◌,
}
use sponge_2021fall.ByteStream.{ByteStream, eof}
use sponge_2021fall.ByteStream.Fifo
use sponge_2021fall.ByteStream.Fifo.{read_lem, str-read}
use sponge_2021fall.Tcp.Segment.{TcpSegment, TcpHeader}
use sponge_2021fall.Tcp.Sender.{
  TcpSender, number, add_syn, add_payload, add_fin, send, round, more, max_payload_size,
}
use sponge_2021fall.Tcp.Sender.Round.{
  Room, Moves, add_syn-Moves, add_payload-Moves, round-Rounds, syn-add_syn, same_header,
  send-segment, add_fin-keeps, bit,
}

stream-send : (p : TcpSender × TcpSegment) → (send p).0.stream ≡ p.0.stream
unfolding send
stream-send (s, seg) = ground arith

flight-send : (p : TcpSender × TcpSegment) → (send p).0.bytes_in_flight ≡ p.0.bytes_in_flight
unfolding send
flight-send (s, seg) = ground arith

ended-send :
    (p : TcpSender × TcpSegment) → (send p).0.is_transmission_ended ≡ p.0.is_transmission_ended
unfolding send
ended-send (s, seg) = ground arith

-- With the stream at its end and room in the window the FIN is sent.
add_fin_ends :
    (window : ℕ) (p : TcpSender × TcpSegment)
    → p.0.bytes_in_flight ≤ window
    → window ≤ 65535
    → ((add_fin window p).0.stream ≡ p.0.stream)
      × (p.0.bytes_in_flight ≤ (add_fin window p).0.bytes_in_flight)
      × (((add_fin window p).0.is_transmission_ended ≡ true)
          ⊎ (window ≤ (add_fin window p).0.bytes_in_flight)
          ⊎ (eof p.0.stream ≡ false))
unfolding add_fin
add_fin_ends window (s, seg) h1 h2 = ground arith

-- A payload is read whenever there are bytes and room for them.
add_payload_reads :
    (s : TcpSender) (window n : ℕ) (p : TcpSender × TcpSegment)
    → Room s window
    → Moves s window n p
    → (length (add_payload window p).0.stream.str < length p.0.stream.str)
      ⊎ (length (add_payload window p).0.stream.str ≡ 0)
      ⊎ (window ≤ (add_payload window p).0.bytes_in_flight)
unfolding add_payload
add_payload_reads s window n (t, seg) r m =
    let len = min (sub64 window t.bytes_in_flight) max_payload_size in
    let (split, size, v) = read_lem t.stream len m.stream in
    let left = ap length (str-read t.stream len m.stream) in
    let cut = length-drop len t.stream.str in let here = m.fits in ground arith

stream-add_syn : (p : TcpSender × TcpSegment) → (add_syn p).0.stream ≡ p.0.stream
unfolding add_syn
stream-add_syn (s, seg) = ground arith

pub more_tells :
    (window : ℕ) (s : TcpSender)
    → Fifo.IsValid s.stream
    → s.bytes_in_flight ≤ window
    → window ≤ 65535
    → (more window s ≡ true → (0 < length s.stream.str) × (s.bytes_in_flight < window))
      × (more window s ≡ false → (length s.stream.str ≡ 0) ⊎ (s.bytes_in_flight ≡ window))
unfolding more
more_tells window s v h1 h2 = (λ h. ground arith, λ h. ground arith)

-- After a round that may be followed by another there are fewer bytes to send. After any round the
-- transmission is ended, the window is full, or the stream is not at its end.
pub record Leaves (s : TcpSender) (window : ℕ) (s' : TcpSender) : Type 0 where
  pub fewer : more window s' ≡ true → length s'.stream.str < length s.stream.str
  pub ended :
      (s'.is_transmission_ended ≡ true) ⊎ (window ≤ s'.bytes_in_flight) ⊎ (eof s'.stream ≡ false)

pub round-Leaves :
    (s : TcpSender) (seg : TcpSegment) (window : ℕ)
    → Fifo.IsValid s.stream
    → Room s window
    → seg.header.syn ≡ false
    → seg.header.fin ≡ false
    → Leaves s window (round window (s, seg)).0
unfolding round
round-Leaves s seg window v r h1 h2 =
    let q = add_syn (s, number s seg) in
    let u = add_payload window q in
    let w = add_fin window u in
    let m = add_syn-Moves s seg window v r h1 in
    let a = add_payload-Moves s window _ q r m in
    let b = add_fin_ends window u a.fits (omega arith) in
    let reads = add_payload_reads s window _ q r m in
    let stream = stream-send w ∙ b.0 in
    let rounds = round-Rounds s seg window v r h1 h2 in
    let tells = λ (h : more window (send w).0 ≡ true).
      (more_tells window (send w).0 rounds.stream rounds.fits (omega arith)).0 h in
    let fewer' : more window (send w).0 ≡ true
        → length (send w).0.stream.str < length s.stream.str =
      λ h. omega (
        arith,
        reads,
        tells h,
        ap (λ (b : ByteStream). length b.str) stream,
        ap (λ (b : ByteStream). length b.str) (stream-add_syn (s, number s seg)),
        flight-send w,
        b.1,
      ) in
    record { fewer = λ h. fewer' h; ended = rw (ended-send w, flight-send w, stream) b.2 }

-- A window of at most one payload more than the SYN is used up in one round.
add_payload_all :
    (s : TcpSender) (window n : ℕ) (p : TcpSender × TcpSegment)
    → Room s window
    → Moves s window n p
    → window ≤ p.0.bytes_in_flight + max_payload_size
    → (length (add_payload window p).0.stream.str ≡ 0)
      ⊎ (window ≤ (add_payload window p).0.bytes_in_flight)
unfolding add_payload
add_payload_all s window n (t, seg) r m h =
    let len = min (sub64 window t.bytes_in_flight) max_payload_size in
    let (split, size, v) = read_lem t.stream len m.stream in
    let left = ap length (str-read t.stream len m.stream) in
    let cut = length-drop len t.stream.str in let here = m.fits in ground arith

add_fin_flag :
    (window : ℕ) (p : TcpSender × TcpSegment)
    → p.1.header.fin ≡ false
    → (add_fin window p).0.is_transmission_ended ≡ false
    → (add_fin window p).1.header.fin ≡ false
unfolding add_fin
add_fin_flag window (s, seg) h1 h2 = ground arith

zero_bit : (s : TcpSender) → s.next_seqno ≡ 0 → bit (s.next_seqno == 0) ≡ 1
zero_bit s e = ground arith

-- The segment that a further round starts from has neither SYN nor FIN, unless the transmission is
-- ended; for the first round the window must not be larger than a SYN and one payload.
pub round_flags :
    (s : TcpSender) (seg : TcpSegment) (window : ℕ)
    → Fifo.IsValid s.stream
    → Room s window
    → seg.header.syn ≡ false
    → seg.header.fin ≡ false
    → (s.next_seqno ≡ 0 → window ≤ 1001)
    → more window (round window (s, seg)).0 ≡ true
    → (round window (s, seg)).0.is_transmission_ended ≡ false
    → ((round window (s, seg)).1.header.syn ≡ false)
      × ((round window (s, seg)).1.header.fin ≡ false)
unfolding round
round_flags s seg window v r h1 h2 calm again open_end =
    let q = add_syn (s, number s seg) in
    let u = add_payload window q in
    let w = add_fin window u in
    let m = add_syn-Moves s seg window v r h1 in
    let a = add_payload-Moves s window _ q r m in
    let b = add_fin_ends window u a.fits (omega arith) in
    let flags = syn-add_syn s seg h1 h2 in
    let same = same_header window q in
    let rounds = round-Rounds s seg window v r h1 h2 in
    let tells = (more_tells window (send w).0 rounds.stream rounds.fits (omega arith)).0 again in
    let syn =
      ap (λ (g : TcpSegment). g.header.syn) (send-segment w)
      ∙ (add_fin-keeps window u).0
      ∙ ap (λ (h : TcpHeader). h.syn) same
      ∙ flags.0 in
    let started : s.next_seqno ≢ 0 = λ e. absurd (
      omega (
        arith,
        tells,
        calm e,
        zero_bit s e,
        m.flight,
        add_payload_all s window _ q r m (omega (arith, calm e, zero_bit s e, m.flight)),
        ap (λ (b : ByteStream). length b.str) (stream-send w ∙ b.0),
        flight-send w,
        b.1,
      )) in
    (
      syn ∙ ground arith,
      ap (λ (g : TcpSegment). g.header.fin) (send-segment w)
          ∙ add_fin_flag window u (ap (λ (h : TcpHeader). h.fin) same ∙ flags.1)
              (sym (ended-send w) ∙ open_end),
    )
