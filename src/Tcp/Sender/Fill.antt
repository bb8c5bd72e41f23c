-- ===== src/Tcp/Sender/Fill.antt =====
-- `TCPSender::fill_window` of libsponge/tcp_sender.cc: its loop as a whole.
use sponge_2021fall.Common.{
  ℕ, arith, length, ◌<◌, ◌≡◌, ◌≤◌, false, refl, true, ◌+◌, ◌∙◌, subst, suc, ◌^◌, ◌⊎◌, Bool-cases,
  sym, inl, inr, zero, elim_false, elim_true, max, leb, ◌-◌,
}
use sponge_2021fall.ByteStream.{eof}
use sponge_2021fall.ByteStream.Fifo
use sponge_2021fall.Seqno
use sponge_2021fall.Tcp.Segment.{TcpSegment, default_segment}
use sponge_2021fall.Tcp.Sender.{TcpSender, round, more, loop, fill_window, actual_window_size}
use mathlib.Core.Path.{subst₂}
use sponge_2021fall.Tcp.Sender.Round.{Rounds, Chain, round-Rounds}
use sponge_2021fall.Tcp.Sender.Queue.{Queues, fill_window-Queues}
use sponge_2021fall.Tcp.Sender.Progress.{round_flags, round-Leaves, more_tells}

-- Nothing more may be sent: the FIN is sent, or the window is full, or there are no bytes to send
-- and the stream has not ended.
abbrev pub Filled : ℕ → TcpSender → Type 0
Filled window s =
    (s.is_transmission_ended ≡ true)
    ⊎ (window ≤ s.bytes_in_flight)
    ⊎ ((length s.stream.str ≡ 0) × (eof s.stream ≡ false))

Rounds-trans :
    (s t u : TcpSender) (window : ℕ) → Rounds s window t → Rounds t window u → Rounds s window u
Rounds-trans s t u window a b = record {
  stream = b.stream;
  grown = omega (arith, a.grown, b.grown);
  later = omega (arith, a.later, b.later);
  fits = b.fits;
  isn = b.isn ∙ a.isn;
  window_size = b.window_size ∙ a.window_size;
  una = b.una ∙ a.una;
  chain = λ k ch.
      subst (λ i. Chain i k u.outstanding_segments u.next_seqno) a.isn
        (b.chain k
          (subst (λ i. Chain i k t.outstanding_segments t.next_seqno) (sym a.isn) (a.chain k ch)));
}

Rounds-refl :
    (s : TcpSender) (window : ℕ)
    → Fifo.IsValid s.stream
    → s.bytes_in_flight ≤ window
    → Rounds s window s
Rounds-refl s window v h = record {
  stream = v;
  grown = refl;
  later = omega arith;
  fits = h;
  isn = refl;
  window_size = refl;
  una = refl;
  chain = λ a ch. ch;
}

-- Enough room for all rounds of a loop: the numbers do not wrap.
abbrev pub Ready : TcpSender → ℕ → Type 0
Ready s window =
    (s.bytes_in_flight < window)
    × (window ≤ 65535)
    × (s.bytes_in_flight ≤ s.next_seqno)
    × (s.next_seqno + 2 ^ 17 < 2 ^ 64 + s.bytes_in_flight)

module _ (fuel window : ℕ) (s : TcpSender) (seg : TcpSegment) where
  loop_ended : s.is_transmission_ended ≡ true → loop (suc fuel) window (s, seg) ≡ s
  unfolding loop
  loop_ended e = elim_true s.is_transmission_ended _ e

  loop_enough :
      s.is_transmission_ended ≡ false
      → more window (round window (s, seg)).0 ≡ false
      → loop (suc fuel) window (s, seg) ≡ (round window (s, seg)).0
  unfolding loop
  loop_enough e h =
      elim_false s.is_transmission_ended _ e
      ∙ elim_false (more window (round window (s, seg)).0) _ h

  loop_again :
      s.is_transmission_ended ≡ false
      → more window (round window (s, seg)).0 ≡ true
      → loop (suc fuel) window (s, seg) ≡ loop fuel window (round window (s, seg))
  unfolding loop
  loop_again e h =
      elim_false s.is_transmission_ended _ e ∙ elim_true (more window (round window (s, seg)).0) _ h

abbrev pub Fills : TcpSender → ℕ → TcpSender → Type 0
Fills s window s' = Rounds s window s' × Filled window s'

-- With more fuel than bytes to send the loop ends by its conditions.
loop-Filled :
    (fuel window : ℕ) (s : TcpSender) (seg : TcpSegment)
    → length s.stream.str < fuel
    → Fifo.IsValid s.stream
    → Ready s window
    → (s.is_transmission_ended ≡ false → (seg.header.syn ≡ false) × (seg.header.fin ≡ false))
    → (s.next_seqno ≡ 0 → window ≤ 1001)
    → Fills s window (loop fuel window (s, seg))
loop-Filled zero window s seg h v r flags calm = absurd (omega arith)
loop-Filled (suc fuel) window s seg h v r flags calm = elim (Bool-cases s.is_transmission_ended) [
  | inl ended ↦
      subst (Fills s window) (sym (loop_ended fuel window s seg ended))
        (Rounds-refl s window v (omega arith), inl ended)
  | inr going ↦
      let (syn, fin) = flags going in
      let one = round-Rounds s seg window v (omega arith) syn fin in
      let leaves = round-Leaves s seg window v (omega arith) syn fin in
      let t = (round window (s, seg)).0 in
      let tells = more_tells window t one.stream one.fits (omega arith) in
      elim (Bool-cases (more window t)) [
        | inl again ↦
            let rest =
              loop-Filled fuel window t (round window (s, seg)).1
                (omega (arith, leaves.fewer again)) one.stream
                (omega (arith, one.grown, one.later, one.fits, tells.0 again))
                (λ open_end. round_flags s seg window v (omega arith) syn fin calm again open_end)
                (λ e. calm (omega (arith, one.later))) in
            subst (Fills s window) (sym (loop_again fuel window s seg going again))
              (Rounds-trans s t _ window one rest.0, rest.1)
        | inr enough ↦
            subst (Fills s window) (sym (loop_enough fuel window s seg going enough))
              (one, ground (arith, leaves.ended, tells.1 enough))
      ]
]

-- The first number of the outstanding segments.
abbrev pub base : TcpSender → ℕ
base s = s.next_seqno - s.bytes_in_flight

-- What the sender's numbers satisfy between the calls.
pub record IsValid (s : TcpSender) : Type 0 where
  pub stream : Fifo.IsValid s.stream
  pub flight : s.bytes_in_flight ≤ s.next_seqno
  pub few : s.bytes_in_flight ≤ 65535
  pub isn : Seqno.IsValid s.isn
  pub low : base s ≤ s.una_seqno
  pub high : s.una_seqno ≤ s.next_seqno
  pub window : s.window_size ≤ 65535
  pub far : s.una_seqno + 2 ^ 18 < 2 ^ 64
  pub chain : Chain s.isn (base s) s.outstanding_segments s.next_seqno

kept :
    (s s' : TcpSender) (window : ℕ) → IsValid s → window ≤ 65535 → Rounds s window s' → IsValid s'
kept s s' window v h r = record {
  stream = r.stream;
  flight = omega (arith, r.grown, v.flight);
  few = omega (arith, r.fits);
  isn = subst Seqno.IsValid (sym r.isn) v.isn;
  low = omega (arith, r.grown, r.una, v.flight, v.low);
  high = omega (arith, r.una, r.later, v.high);
  window = omega (arith, r.window_size, v.window);
  far = omega (arith, r.una, v.far);
  chain =
      subst₂ (λ i a. Chain i a s'.outstanding_segments s'.next_seqno) (sym r.isn)
        (omega (arith, r.grown, v.flight)) (r.chain (base s) v.chain);
}

filled :
    (s : TcpSender)
    → IsValid s
    → (s.next_seqno ≡ 0 → actual_window_size s ≤ 1001)
    → s.bytes_in_flight < actual_window_size s
    → Fills s
        (actual_window_size s)
        (loop (suc (length s.stream.str)) (actual_window_size s) (s, default_segment))
filled s v calm h =
    loop-Filled (suc (length s.stream.str)) (actual_window_size s) s default_segment (omega arith)
      v.stream (h, ground (arith, v.window), v.flight, omega (arith, v.flight, v.far, v.low))
      (λ e. (refl, refl)) calm

fill_window-Fills :
    (s : TcpSender)
    → IsValid s
    → (s.next_seqno ≡ 0 → actual_window_size s ≤ 1001)
    → IsValid (fill_window s)
      × Filled (actual_window_size s) (fill_window s)
      × ((fill_window s).bytes_in_flight ≤ max s.bytes_in_flight (actual_window_size s))
unfolding fill_window
fill_window-Fills s v calm = elim (Bool-cases (leb (actual_window_size s) s.bytes_in_flight)) [
  | inl full ↦ rw full (v, inr (inl (ground arith)), omega arith)
  | inr room ↦
      let (r, f) = filled s v calm (ground arith) in
      rw room (kept s _ _ v (ground (arith, v.window)) r, f, omega (arith, r.fits))
]

-- For a valid sender whose first window is at most 1001, `fill_window` ends with all sent that may
-- be: the FIN is sent, or the window is full, or no byte is left to send and the stream has not
-- ended. The sender stays valid: the outstanding segments carry consecutive sequence numbers up
-- to `_next_seqno`, as many as are counted in flight, and no more are in flight than the window
-- allows or were before. The segments that it makes are put into `_segments_out` and kept as
-- outstanding, both after those that were there and in the same order. Their bytes are those that
-- it takes from the front of the stream, in order, and one of them has FIN if it ends the
-- transmission.
pub fill_window-Filled :
    (s : TcpSender)
    → IsValid s
    → (s.next_seqno ≡ 0 → actual_window_size s ≤ 1001)
    → IsValid (fill_window s)
      × Filled (actual_window_size s) (fill_window s)
      × ((fill_window s).bytes_in_flight ≤ max s.bytes_in_flight (actual_window_size s))
      × Queues s (fill_window s)
fill_window-Filled s v calm =
    let (valid, full, few) = fill_window-Fills s v calm in
    (valid, full, few, fill_window-Queues s v.stream)
