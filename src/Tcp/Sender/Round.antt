-- ===== src/Tcp/Sender/Round.antt =====
-- One round of the loop of `TCPSender::fill_window` in libsponge/tcp_sender.cc: the segment that it
-- makes, and the numbers that it moves on.
use sponge_2021fall.Common.{
  ℕ, Bool, List, ◌+◌, ◌<◌, ◌≡◌, false, length, true, ◌++◌, ◌∷◌, ◌≤◌, [], arith, ◌==◌, ◌^◌, subst,
  sym, ap, min, refl, sub64, ◌∙◌, Bool-cases, not, ◌||◌, inl, inr,
}
use sponge_2021fall.Seqno.{WrappingInt32, wrap}
use sponge_2021fall.ByteStream.Fifo
use sponge_2021fall.ByteStream.Fifo.{read_lem}
use sponge_2021fall.Tcp.Segment.{TcpSegment, length_in_sequence_space, TcpHeader}
use sponge_2021fall.Tcp.Sender.{
  TcpSender, number, add_syn, add_payload, add_fin, send, round, max_payload_size,
}
use mathlib.Core.Path.{subst₂}

abbrev pub bit : Bool → ℕ
bit true = 1
bit false = 0

-- The segments from the absolute number `a` up to `b`, one after the other.
abbrev pub Chain : WrappingInt32 → ℕ → List TcpSegment → ℕ → Type 0
Chain isn a [] b = a ≡ b
Chain isn a (seg ∷ segs) b =
    (seg.header.seqno ≡ wrap a isn)
    × (0 < length_in_sequence_space seg)
    × Chain isn (a + length_in_sequence_space seg) segs b

pub Chain-append :
    (isn : WrappingInt32) (a b c : ℕ) (segs : List TcpSegment) (seg : TcpSegment)
    → Chain isn a segs b
    → seg.header.seqno ≡ wrap b isn
    → 0 < length_in_sequence_space seg
    → c ≡ b + length_in_sequence_space seg
    → Chain isn a (segs ++ seg ∷ []) c
Chain-append isn a b c [] seg ch e h ec =
    (subst (λ k. seg.header.seqno ≡ wrap k isn) (sym ch) e, h, omega (arith, ch))
Chain-append isn a b c (t ∷ ts) seg ch e h ec =
    (ch.0, ch.1, Chain-append isn (a + length_in_sequence_space t) b c ts seg ch.2 e h ec)

-- How a step takes a sender and a segment on: `n` more sequence numbers, within the window, and
-- nothing else but the stream and the end of the transmission.
pub record Moves (s : TcpSender) (window n : ℕ) (p : TcpSender × TcpSegment) : Type 0 where
  pub stream : Fifo.IsValid p.0.stream
  pub next : p.0.next_seqno ≡ s.next_seqno + n
  pub flight : p.0.bytes_in_flight ≡ s.bytes_in_flight + n
  pub fits : p.0.bytes_in_flight ≤ window
  pub isn : p.0.isn ≡ s.isn
  pub window_size : p.0.window_size ≡ s.window_size
  pub una : p.0.una_seqno ≡ s.una_seqno
  pub outstanding : p.0.outstanding_segments ≡ s.outstanding_segments
  pub seqno : p.1.header.seqno ≡ wrap s.next_seqno s.isn

-- The room for a round: its numbers do not wrap.
abbrev pub Room : TcpSender → ℕ → Type 0
Room s window = (s.bytes_in_flight < window) × (window ≤ 65535) × (s.next_seqno + 65537 < 2 ^ 64)

pub add_syn-Moves :
    (s : TcpSender) (seg : TcpSegment) (window : ℕ)
    → Fifo.IsValid s.stream
    → Room s window
    → seg.header.syn ≡ false
    → Moves s window (bit (s.next_seqno == 0)) (add_syn (s, number s seg))
unfolding add_syn number
add_syn-Moves s seg window v r h = ground arith

pub syn-add_syn :
    (s : TcpSender) (seg : TcpSegment)
    → seg.header.syn ≡ false
    → seg.header.fin ≡ false
    → ((add_syn (s, number s seg)).1.header.syn ≡ (s.next_seqno == 0))
      × ((add_syn (s, number s seg)).1.header.fin ≡ false)
unfolding add_syn number
syn-add_syn s seg h1 h2 = ground arith

pub add_payload-Moves :
    (s : TcpSender) (window n : ℕ) (p : TcpSender × TcpSegment)
    → Room s window
    → Moves s window n p
    → Moves s window (n + length (add_payload window p).1.payload) (add_payload window p)
unfolding add_payload
add_payload-Moves s window n (t, seg) r m =
    let (split, size, v) =
      read_lem t.stream (min (sub64 window t.bytes_in_flight) max_payload_size) m.stream in
    record {
      stream = v;
      next = omega (arith, m.next, m.flight, m.fits);
      flight = omega (arith, m.flight, m.fits);
      fits = omega (arith, m.flight, m.fits);
      isn = m.isn;
      window_size = m.window_size;
      una = m.una;
      outstanding = m.outstanding;
      seqno = m.seqno;
    }

add_fin-Moves :
    (s : TcpSender) (window n : ℕ) (p : TcpSender × TcpSegment)
    → Room s window
    → p.1.header.fin ≡ false
    → Moves s window n p
    → Moves s window (n + bit (add_fin window p).1.header.fin) (add_fin window p)
unfolding add_fin
add_fin-Moves s window n (t, seg) r h m = ground (arith, m.next, m.flight, m.fits)

-- The sequence numbers of a segment, counted without wrap-around.
abbrev pub size : TcpSegment → ℕ
size seg = bit seg.header.syn + length seg.payload + bit seg.header.fin

pub length_in_sequence_space-eq :
    (seg : TcpSegment) → size seg < 2 ^ 64 → length_in_sequence_space seg ≡ size seg
unfolding length_in_sequence_space
length_in_sequence_space-eq seg h = ground arith

pub same_header :
    (window : ℕ) (p : TcpSender × TcpSegment) → (add_payload window p).1.header ≡ p.1.header
unfolding add_payload
same_header window (s, seg) = refl

pub add_fin-keeps :
    (window : ℕ) (p : TcpSender × TcpSegment)
    → ((add_fin window p).1.header.syn ≡ p.1.header.syn)
      × ((add_fin window p).1.payload ≡ p.1.payload)
unfolding add_fin
add_fin-keeps window (s, seg) = ground arith

-- The part of a round before the segment is sent.
abbrev prepared : ℕ → TcpSender → TcpSegment → TcpSender × TcpSegment
prepared window s seg = add_fin window (add_payload window (add_syn (s, number s seg)))

prepared-Moves :
    (s : TcpSender) (seg : TcpSegment) (window : ℕ)
    → Fifo.IsValid s.stream
    → Room s window
    → seg.header.syn ≡ false
    → seg.header.fin ≡ false
    → Moves s window (size (prepared window s seg).1) (prepared window s seg)
prepared-Moves s seg window v r h1 h2 =
    let q = add_syn (s, number s seg) in
    let u = add_payload window q in
    let flags = syn-add_syn s seg h1 h2 in
    let same = same_header window q in
    let kept = add_fin-keeps window u in
    let m =
      add_fin-Moves s window _ u r (ap (λ (h : TcpHeader). h.fin) same ∙ flags.1)
        (add_payload-Moves s window _ q r (add_syn-Moves s seg window v r h1)) in
    let syn = kept.0 ∙ ap (λ (h : TcpHeader). h.syn) same ∙ flags.0 in
    subst (λ n. Moves s window n (prepared window s seg))
      (omega (arith, ap bit syn, ap length kept.1)) m

-- What a round does to the sender: the stream stays valid, as many bytes are counted in flight as
-- sequence numbers are used, within the window, and the chain of outstanding segments goes on.
pub record Rounds (s : TcpSender) (window : ℕ) (s' : TcpSender) : Type 0 where
  pub stream : Fifo.IsValid s'.stream
  pub grown : s'.next_seqno + s.bytes_in_flight ≡ s.next_seqno + s'.bytes_in_flight
  pub later : s.next_seqno ≤ s'.next_seqno
  pub fits : s'.bytes_in_flight ≤ window
  pub isn : s'.isn ≡ s.isn
  pub window_size : s'.window_size ≡ s.window_size
  pub una : s'.una_seqno ≡ s.una_seqno
  pub chain :
      (a : ℕ)
      → Chain s.isn a s.outstanding_segments s.next_seqno
      → Chain s.isn a s'.outstanding_segments s'.next_seqno

send-Rounds :
    (s : TcpSender) (window : ℕ) (p : TcpSender × TcpSegment)
    → Room s window
    → Moves s window (size p.1) p
    → Rounds s window (send p).0
unfolding send
send-Rounds s window (t, seg) r m =
    let counted = length_in_sequence_space-eq seg (omega (arith, m.flight, m.fits)) in
    elim (Bool-cases (not (length seg.payload == 0) || (seg.header.syn || seg.header.fin))) [
      | inl some_data ↦ rw some_data (record {
        stream = m.stream;
        grown = omega (arith, m.next, m.flight);
        later = omega (arith, m.next);
        fits = m.fits;
        isn = m.isn;
        window_size = m.window_size;
        una = m.una;
        chain = λ a ch.
            subst (λ l. Chain s.isn a (l ++ seg ∷ []) t.next_seqno) (sym m.outstanding)
              (Chain-append s.isn a s.next_seqno t.next_seqno s.outstanding_segments seg ch m.seqno
                (ground arith) (omega (arith, m.next)));
      })
      | inr no_data ↦
          let none_used : size seg ≡ 0 = ground arith in
          rw no_data (record {
            stream = m.stream;
            grown = omega (arith, m.next, m.flight);
            later = omega (arith, m.next);
            fits = m.fits;
            isn = m.isn;
            window_size = m.window_size;
            una = m.una;
            chain = λ a ch.
                subst₂ (λ l b. Chain s.isn a l b) (sym m.outstanding) (omega (arith, m.next)) ch;
          })
    ]

pub send-segment : (p : TcpSender × TcpSegment) → (send p).1 ≡ p.1
unfolding send
send-segment (s, seg) = ground arith

pub round-Rounds :
    (s : TcpSender) (seg : TcpSegment) (window : ℕ)
    → Fifo.IsValid s.stream
    → Room s window
    → seg.header.syn ≡ false
    → seg.header.fin ≡ false
    → Rounds s window (round window (s, seg)).0
unfolding round
round-Rounds s seg window v r h1 h2 =
    send-Rounds s window (prepared window s seg) r (prepared-Moves s seg window v r h1 h2)
