-- ===== src/Tcp/Sender/Ack.antt =====
-- `TCPSender::ack_received` of libsponge/tcp_sender.cc: the outstanding segments that an
-- acknowledgment number takes off, and those that it keeps.
use sponge_2021fall.Common.{
  ℕ, arith, ◌≡◌, ◌+◌, ◌-◌, ◌≤◌, ◌<◌, List, ◌++◌, ◌^◌, ◌∷◌, [], sub64, Bool-cases, leb, add64, inl,
  subst, sym, ap, inr, refl, not, ◌∙◌, ◌⊎◌, length, ◌||◌, ltb, ◌==◌,
}
use sponge_2021fall.Seqno.{WrappingInt32, wrap, unwrap}
use sponge_2021fall.Seqno
use sponge_2021fall.Seqno.RoundTrip.{unwrap-wrap, dist}
use sponge_2021fall.Tcp.Segment.{TcpSegment, length_in_sequence_space}
use sponge_2021fall.Tcp.Sender.{TcpSender, pop_acked, accept_ack, ack_received}
use mathlib.Core.Path.{subst₂}
use sponge_2021fall.ByteStream.Fifo
use sponge_2021fall.Tcp.Timer.{start, stop}
use sponge_2021fall.Tcp.Sender.Round.{Chain}
use sponge_2021fall.Tcp.Sender.Fill.{IsValid}

Chain-le : (isn : WrappingInt32) (a b : ℕ) (segs : List TcpSegment) → Chain isn a segs b → a ≤ b
Chain-le isn a b [] ch = omega (arith, ch)
Chain-le isn a b (seg ∷ segs) ch =
    omega (arith, Chain-le isn (a + length_in_sequence_space seg) b segs ch.2)

-- The first of the segments, which starts at `a`, is not wholly acknowledged.
abbrev pub Pending : ℕ → ℕ → List TcpSegment → Type 0
Pending ack a [] = Unit
Pending ack a (seg ∷ segs) = ack < a + length_in_sequence_space seg

-- The segments that end at or before `ack` are gone, and no other.
pub record Popped (isn : WrappingInt32) (ack next flight : ℕ) (segs : List TcpSegment)
    (p : ℕ × List TcpSegment) : Type 0 where
  pub fewer : p.0 ≤ flight
  pub low : next - p.0 ≤ ack
  pub chain : Chain isn (next - p.0) p.1 next
  pub pending : Pending ack (next - p.0) p.1
  pub cut : (acked : List TcpSegment) × (acked ++ p.1 ≡ segs)

seqno-end :
    (isn seqno : WrappingInt32) (a next len : ℕ)
    → Seqno.IsValid isn
    → seqno ≡ wrap a isn
    → a + len ≤ next
    → next ≤ a + 65535
    → next + 2 ^ 17 < 2 ^ 64
    → add64 (unwrap seqno isn next) len ≡ a + len
unfolding dist
seqno-end isn seqno a next len hi e h1 h2 h3 =
    let back = unwrap-wrap a isn next hi (omega arith) (omega arith) (omega arith) in
    let eq : unwrap seqno isn next ≡ a = ap (λ w. unwrap w isn next) e ∙ back in omega (arith, eq)

module _ (ack : ℕ) (isn : WrappingInt32) (next : ℕ) where
  pop_acked-Popped :
      (flight : ℕ) (segs : List TcpSegment)
      → Seqno.IsValid isn
      → next + 2 ^ 17 < 2 ^ 64
      → flight ≤ next
      → flight ≤ 65535
      → next - flight ≤ ack
      → Chain isn (next - flight) segs next
      → Popped isn ack next flight segs (pop_acked ack isn next flight segs)
  unfolding pop_acked
  pop_acked-Popped flight [] hi far h few low ch = record {
    fewer = omega arith;
    low = low;
    chain = ch;
    pending = tt;
    cut = ([], refl);
  }
  pop_acked-Popped flight (seg ∷ segs) hi far h few low ch =
      let len = length_in_sequence_space seg in
      let le = Chain-le isn _ next segs ch.2 in
      let left : next - sub64 flight len ≡ next - flight + len = omega (arith, le) in
      let last =
        seqno-end isn seg.header.seqno (next - flight) next len hi ch.0 le (omega arith) far in
      elim (Bool-cases (leb (add64 (unwrap seg.header.seqno isn next) len) ack)) [
        | inl acked ↦
            let rest =
              pop_acked-Popped (sub64 flight len) segs hi far (omega (arith, le))
                (omega (arith, le)) (ground (arith, left, last))
                (subst (λ a. Chain isn a segs next) (sym left) ch.2) in
            rw acked (record {
              fewer = omega (arith, rest.fewer, le);
              low = rest.low;
              chain = rest.chain;
              pending = rest.pending;
              cut = (seg ∷ rest.cut.0, ap (λ l. seg ∷ l) rest.cut.1);
            })
        | inr kept ↦ rw kept (record {
          fewer = omega arith;
          low = low;
          chain = ch;
          pending = ground (arith, last);
          cut = ([], refl);
        })
      ]

-- What an acceptable acknowledgment up to `ack` does to the sender.
pub record Acked (s : TcpSender) (ack : ℕ) (s' : TcpSender) : Type 0 where
  pub popped :
      Popped s.isn ack s.next_seqno s.bytes_in_flight s.outstanding_segments
        (s'.bytes_in_flight, s'.outstanding_segments)
  pub una : s'.una_seqno ≡ ack
  pub rto : s'.cur_rto ≡ s.initial_retransmission_timeout
  pub retries : s'.consecutive_retrans_times ≡ 0
  pub initial : s'.initial_retransmission_timeout ≡ s.initial_retransmission_timeout
  pub running : s'.timer.is_start ≡ not (length s'.outstanding_segments == 0)
  pub fresh : s'.timer.cur ≡ 0
  pub stream : s'.stream ≡ s.stream
  pub sent : s'.segments_out ≡ s.segments_out
  pub next : s'.next_seqno ≡ s.next_seqno
  pub isn : s'.isn ≡ s.isn
  pub window : s'.window_size ≡ s.window_size

accept_ack-Acked :
    (s : TcpSender) (ack : ℕ)
    → IsValid s
    → s.next_seqno + 2 ^ 18 < 2 ^ 64
    → s.una_seqno < ack
    → ack ≤ s.next_seqno
    → Acked s ack (accept_ack s ack)
unfolding accept_ack start stop
accept_ack-Acked s ack v far h1 h2 =
    let p =
      pop_acked-Popped ack s.isn s.next_seqno s.bytes_in_flight s.outstanding_segments v.isn
        (omega arith) v.flight v.few (omega (arith, v.low)) v.chain in
    record {
      popped = p;
      una = refl;
      rto = refl;
      retries = refl;
      initial = refl;
      running = ground arith;
      fresh = ground arith;
      stream = refl;
      sent = refl;
      next = refl;
      isn = refl;
      window = refl;
    }

Acked-IsValid :
    (s s' : TcpSender) (ack : ℕ)
    → IsValid s
    → s.next_seqno + 2 ^ 18 < 2 ^ 64
    → ack ≤ s.next_seqno
    → Acked s ack s'
    → IsValid s'
Acked-IsValid s s' ack v far h a = record {
  stream = subst Fifo.IsValid (sym a.stream) v.stream;
  flight = omega (arith, a.popped.fewer, a.next, v.flight);
  few = omega (arith, a.popped.fewer, v.few);
  isn = subst Seqno.IsValid (sym a.isn) v.isn;
  low = omega (arith, a.popped.low, a.next, a.una);
  high = omega (arith, a.una, a.next);
  window = omega (arith, a.window, v.window);
  far = omega (arith, a.una);
  chain =
      subst₂ (λ i n. Chain i (n - s'.bytes_in_flight) s'.outstanding_segments n) (sym a.isn)
        (sym a.next) a.popped.chain;
}

IsValid-window :
    (s : TcpSender) (window_size : ℕ)
    → IsValid s
    → window_size ≤ 65535
    → IsValid (record s { window_size = window_size })
IsValid-window s window_size v h = record {
  stream = v.stream;
  flight = v.flight;
  few = v.few;
  isn = v.isn;
  low = v.low;
  high = v.high;
  window = h;
  far = v.far;
  chain = v.chain;
}

-- An acknowledgment of a valid sender that has sent less than 2 ^ 64 - 2 ^ 18 numbers: when the
-- number, unwrapped next to `_next_seqno`, is new and not above `_next_seqno`, the segments that
-- end at or below it leave the outstanding ones and no other, the timeout and the count of retries
-- start again, and the timer runs from 0 iff a segment is outstanding. Otherwise only the window
-- size is set. In both cases the sender stays valid.
pub ack_received-Acked :
    (s : TcpSender) (ackno : WrappingInt32) (window_size : ℕ)
    → IsValid s
    → window_size ≤ 65535
    → s.next_seqno + 2 ^ 18 < 2 ^ 64
    → IsValid (ack_received s ackno window_size)
      × (((s.una_seqno < unwrap ackno s.isn s.next_seqno)
            × (unwrap ackno s.isn s.next_seqno ≤ s.next_seqno)
            × Acked
                (record s { window_size = window_size })
                (unwrap ackno s.isn s.next_seqno)
                (ack_received s ackno window_size))
          ⊎ (((unwrap ackno s.isn s.next_seqno ≤ s.una_seqno)
                ⊎ (s.next_seqno < unwrap ackno s.isn s.next_seqno))
              × (ack_received s ackno window_size ≡ record s { window_size = window_size })))
unfolding ack_received
ack_received-Acked s ackno window_size v hw far =
    let ack = unwrap ackno s.isn s.next_seqno in
    let t = record s { window_size = window_size } in
    let valid : IsValid t = IsValid-window s window_size v hw in
    elim (Bool-cases (leb ack s.una_seqno || ltb s.next_seqno ack)) [
      | inl old ↦ rw old (valid, inr (ground arith, refl))
      | inr new ↦
          let low : s.una_seqno < ack = ground arith in
          let high : ack ≤ s.next_seqno = ground arith in
          let a = accept_ack-Acked t ack valid far low high in
          rw new (Acked-IsValid t (accept_ack t ack) ack valid far high a, inl (low, high, a))
    ]
