-- ===== src/Tcp/Sender/Life.antt =====
-- The life of a sender of libsponge/tcp_sender.cc: what holds after any sequence of calls.
use sponge_2021fall.Common.{
  ℕ, ◌≡◌, ◌≤◌, ◌<◌, ◌+◌, ◌*◌, ◌^◌, arith, refl, true, false, List, [], suc, u64, ◌-◌, if_cases, ◌∙◌,
  inl, inr, ltb, leb, ◌&&◌, if◌then◌else◌, ◌++◌, take, length, zero, IsU64, IsU16,
}
use sponge_2021fall.Seqno.{WrappingInt32, unwrap}
use sponge_2021fall.Seqno
use sponge_2021fall.ByteStream.{write, end_input}
use sponge_2021fall.Tcp.Sender.{
  TcpSender, init, fill_window, actual_window_size, ack_received, tick, send_empty_segment, round,
  add_syn, add_payload, add_fin, send, loop, more,
}
use mathlib.Core.Path.{sym, subst}
use sponge_2021fall.Tcp.Segment.{TcpSegment, default_segment}
use sponge_2021fall.Tcp.Sender.Fill.{IsValid, fill_window-Filled}
use sponge_2021fall.Tcp.Sender.Ack.{ack_received-Acked}
use sponge_2021fall.ByteStream.Fifo.{write_lem, end_input-IsValid, init-IsValid}
use sponge_2021fall.Tcp.Sender.Backoff.{
  Backs, after_tick, retransmits, tick-queued, same-IsValid, same-Backs, tick-IsValid, tick-Backs,
}

-- How many retransmissions there are in a row after a segment came, where there were `k` before it:
-- none if it acknowledges what was not acknowledged yet, and was sent.
abbrev pub after_ack : ℕ → TcpSender → WrappingInt32 → ℕ
after_ack k s ackno =
    let ack = unwrap ackno s.isn s.next_seqno in
    if ltb s.una_seqno ack && leb ack s.next_seqno then 0 else k

-- The calls that its connection makes of a sender, with the retransmissions in a row before and
-- after it.
pub data Step : ℕ → TcpSender → ℕ → TcpSender → Type 0 where
  fills :
      (k : ℕ) (s : TcpSender)
      → (s.next_seqno ≡ 0 → actual_window_size s ≤ 1001)
      → Step k s k (fill_window s)
  acks :
      (k : ℕ) (s : TcpSender) (ackno : WrappingInt32) (window_size : ℕ)
      → window_size ≤ 65535
      → s.next_seqno + 2 ^ 18 < 2 ^ 64
      → Step k s (after_ack k s ackno) (ack_received s ackno window_size)
  ticks : (k : ℕ) (s : TcpSender) (ms : ℕ) → Step k s (after_tick k s ms) (tick s ms)
  empties : (k : ℕ) (s : TcpSender) → Step k s k (send_empty_segment s)
  drains : (k : ℕ) (s : TcpSender) → Step k s k (record s { segments_out = [] })
  writes :
      (k : ℕ) (s : TcpSender) (bytes : List ℕ)
      → Step k s k (record s { stream = (write s.stream bytes).1 })
  ends : (k : ℕ) (s : TcpSender) → Step k s k (record s { stream = end_input s.stream })

-- A life of `n` calls, with the retransmissions in a row at its end.
pub data Steps : ℕ → TcpSender → ℕ → TcpSender → Type 0 where
  none_yet : (s : TcpSender) → Steps 0 s 0 s
  one_more : (n j k : ℕ) (s t u : TcpSender) → Steps n s j t → Step j t k u → Steps (suc n) s k u

-- Sending does not touch the timeout.
pub record SameTimeout (s t : TcpSender) : Type 0 where
  pub initial : t.initial_retransmission_timeout ≡ s.initial_retransmission_timeout
  pub retries : t.consecutive_retrans_times ≡ s.consecutive_retrans_times
  pub rto : t.cur_rto ≡ s.cur_rto

round-SameTimeout : (window : ℕ) (p : TcpSender × TcpSegment) → SameTimeout p.0 (round window p).0
unfolding round add_syn add_payload add_fin send
round-SameTimeout window (s, seg) = record {
  initial = ground arith;
  retries = ground arith;
  rto = ground arith;
}

SameTimeout-trans : (s t u : TcpSender) → SameTimeout s t → SameTimeout t u → SameTimeout s u
SameTimeout-trans s t u a b = record {
  initial = b.initial ∙ a.initial;
  retries = b.retries ∙ a.retries;
  rto = b.rto ∙ a.rto;
}

loop-SameTimeout :
    (fuel window : ℕ) (s : TcpSender) (seg : TcpSegment) → SameTimeout s (loop fuel window (s, seg))
unfolding loop
loop-SameTimeout zero window s seg = record { initial = refl; retries = refl; rto = refl }
loop-SameTimeout (suc fuel) window s seg =
    let one = round-SameTimeout window (s, seg) in
    let t = (round window (s, seg)).0 in
    elim s.is_transmission_ended
      as (λ b. SameTimeout s (elim b [
        | true ↦ s
        | false ↦ elim (more window t) [
          | true ↦ loop fuel window (round window (s, seg))
          | false ↦ t
        ]
      ])) [
        | true ↦ record { initial = refl; retries = refl; rto = refl }
        | false ↦
            elim (more window t)
              as (λ b.
                SameTimeout s
                  (elim b [ true ↦ loop fuel window (round window (s, seg)) | false ↦ t ])) [
                    | true ↦
                        SameTimeout-trans s t _ one
                          (loop-SameTimeout fuel window t (round window (s, seg)).1)
                    | false ↦ one
                  ]
      ]

fill_window-SameTimeout : (s : TcpSender) → SameTimeout s (fill_window s)
unfolding fill_window
fill_window-SameTimeout s =
    if_cases (SameTimeout s) (leb (actual_window_size s) s.bytes_in_flight)
      (record { initial = refl; retries = refl; rto = refl })
      (loop-SameTimeout (suc (length s.stream.str)) (actual_window_size s) s default_segment)

ack_received-Backs :
    (rto n k : ℕ) (s : TcpSender) (ackno : WrappingInt32) (window_size : ℕ)
    → window_size ≤ 65535
    → s.next_seqno + 2 ^ 18 < 2 ^ 64
    → IsValid s
    → Backs rto n k s
    → Backs rto (suc n) (after_ack k s ackno) (ack_received s ackno window_size)
ack_received-Backs rto n k s ackno window_size h far v b =
    let t = record s { window_size = window_size } in
    let ack = unwrap ackno s.isn s.next_seqno in
    elim (ack_received-Acked s ackno window_size v h far).1 [
      | inl (low, high, a) ↦
          let new : (ltb s.una_seqno ack && leb ack s.next_seqno) ≡ true = ground arith in
          rw new (record {
            word = b.word;
            initial = a.initial ∙ b.initial;
            few = omega arith;
            counted = a.retries;
            doubled = omega (arith, a.rto, b.initial, b.word);
          })
      | inr (old, e) ↦
          let stale : (ltb s.una_seqno ack && leb ack s.next_seqno) ≡ false = ground (arith, old) in
          rw stale (subst (Backs rto (suc n) k) (sym e) (same-Backs rto n k s t b refl refl refl))
    ]

-- Both invariants after a call.
Step-Backs :
    (rto n j : ℕ) (s : TcpSender) (k : ℕ) (t : TcpSender)
    → n < 2 ^ 32 - 1
    → IsValid s
    → Backs rto n j s
    → Step j s k t
    → IsValid t × Backs rto (suc n) k t
Step-Backs rto n j s _ _ h v b (fills _ _ calm) =
    let same = fill_window-SameTimeout s in
    (
      (fill_window-Filled s v calm).0,
      same-Backs rto n j s (fill_window s) b same.initial same.retries same.rto,
    )
Step-Backs rto n j s _ _ h v b (acks _ _ ackno window_size word far) = (
  (ack_received-Acked s ackno window_size v word far).0,
  ack_received-Backs rto n j s ackno window_size word far v b,
)
Step-Backs rto n j s _ _ h v b (ticks _ _ ms) = (tick-IsValid s ms v, tick-Backs rto n j s ms h b)
Step-Backs rto n j s _ _ h v b (empties _ _) =
    unfold send_empty_segment in
    (
      same-IsValid s (send_empty_segment s) v v.stream refl refl refl refl refl refl,
      same-Backs rto n j s (send_empty_segment s) b refl refl refl,
    )
Step-Backs rto n j s _ _ h v b (drains _ _) = (
  same-IsValid s (record s { segments_out = [] }) v v.stream refl refl refl refl refl refl,
  same-Backs rto n j s (record s { segments_out = [] }) b refl refl refl,
)
Step-Backs rto n j s _ _ h v b (writes _ _ bytes) =
    let t = record s { stream = (write s.stream bytes).1 } in
    (
      same-IsValid s t v (write_lem s.stream bytes v.stream).2 refl refl refl refl refl refl,
      same-Backs rto n j s t b refl refl refl,
    )
Step-Backs rto n j s _ _ h v b (ends _ _) =
    let t = record s { stream = end_input s.stream } in
    (
      same-IsValid s t v (end_input-IsValid s.stream v.stream) refl refl refl refl refl refl,
      same-Backs rto n j s t b refl refl refl,
    )

init-Backs :
    (capacity rto : ℕ) (isn : WrappingInt32)
    → IsU64 capacity
    → IsU16 rto
    → Seqno.IsValid isn
    → IsValid (init capacity rto isn) × Backs rto 0 0 (init capacity rto isn)
unfolding init
init-Backs capacity rto isn h1 h2 h3 = (
  record {
    stream = init-IsValid capacity h1;
    flight = omega arith;
    few = omega arith;
    isn = h3;
    low = omega arith;
    high = omega arith;
    window = omega arith;
    far = omega arith;
    chain = refl;
  },
  record { word = h2; initial = refl; few = omega arith; counted = refl; doubled = omega arith },
)

all_Steps-Backs :
    (rto n k : ℕ) (s t : TcpSender)
    → IsValid s
    → Backs rto 0 0 s
    → n < 2 ^ 32
    → Steps n s k t
    → IsValid t × Backs rto n k t
all_Steps-Backs rto n k s _ v b h (none_yet _) = (v, b)
all_Steps-Backs rto n k s _ v b h (one_more m j _ _ t u steps step) =
    let (v', b') = all_Steps-Backs rto m j s t v b (omega arith) steps in
    Step-Backs rto m j t k u (omega arith) v' b' step

-- A sender that has had any sequence of less than 2 ^ 32 calls since it was made, in any order, is
-- valid, and if `k` of these calls, since the last that acknowledged something new, are ticks that
-- retransmit to a window other than 0, then `k` is what it has counted, and its timeout is the
-- initial one doubled `k` times, in 64 bits. A further tick retransmits if the timer is running and
-- has then run for as long as it was set, and a segment is outstanding: it puts the oldest such
-- segment out, and nothing otherwise. The calls are those of a connection: the window sizes
-- fit 16 bits, less than 2 ^ 64 - 2 ^ 18 numbers are sent, and the window at the SYN is at most 1001.
pub Steps-Backs :
    (capacity rto : ℕ) (isn : WrappingInt32) (n k : ℕ) (s : TcpSender) (ms : ℕ)
    → IsU64 capacity
    → IsU16 rto
    → Seqno.IsValid isn
    → n < 2 ^ 32
    → Steps n (init capacity rto isn) k s
    → IsValid s
      × (s.consecutive_retrans_times ≡ k)
      × (s.cur_rto ≡ u64 (rto * 2 ^ k))
      × ((tick s ms).segments_out ≡ (
          if retransmits s ms
          then s.segments_out ++ take 1 s.outstanding_segments
          else s.segments_out))
Steps-Backs capacity rto isn n k s ms h1 h2 h3 h steps =
    let (v, b) = init-Backs capacity rto isn h1 h2 h3 in
    let (v', b') = all_Steps-Backs rto n k (init capacity rto isn) s v b h steps in
    (v', b'.counted, b'.doubled, tick-queued s ms)
