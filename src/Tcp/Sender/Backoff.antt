-- ===== src/Tcp/Sender/Backoff.antt =====
-- `TCPSender::tick` of libsponge/tcp_sender.cc: exponential back-off of the timeout.
use sponge_2021fall.Common.{
  ℕ, ◌≡◌, ◌≤◌, ◌<◌, ◌+◌, ◌*◌, ◌^◌, arith, refl, List, [], suc, u64, ◌-◌, Bool, true, false, not,
  ◌&&◌, Bool-cases, add64, ◌∙◌, ◌==◌, ◌∷◌, inl, inr, leb, if◌then◌else◌, ◌++◌, take,
}
use sponge_2021fall.Seqno.{WrappingInt32, unwrap}
use sponge_2021fall.Seqno
use sponge_2021fall.Tcp.Timer
use sponge_2021fall.Tcp.Timer.{expired, start, stop}
use sponge_2021fall.Tcp.Sender.{TcpSender, tick, retransmit}
use sponge_2021fall.ByteStream.Fifo
use mathlib.Core.Path.{subst₂, sym, ap, subst}
use native.Mathlib.Nat.{pow-suc, mul_assoc}
use sponge_2021fall.Tcp.Segment.{TcpSegment}
use sponge_2021fall.Tcp.Sender.Round.{Chain}
use sponge_2021fall.Tcp.Sender.Fill.{base, IsValid}
use sponge_2021fall.ByteStream.Fifo.{write_lem, end_input-IsValid, init-IsValid}

-- The sender of a connection whose initial timeout is `rto`, after `n` calls, of which `k` are
-- retransmissions in a row: it has counted those, and the timeout is doubled for each of them.
pub record Backs (rto n k : ℕ) (s : TcpSender) : Type 0 where
  pub word : rto < 2 ^ 16
  pub initial : s.initial_retransmission_timeout ≡ rto
  pub few : k ≤ n
  pub counted : s.consecutive_retrans_times ≡ k
  pub doubled : s.cur_rto ≡ u64 (rto * 2 ^ k)

-- Only the stream, the queue, the clock and the timeout may differ.
pub same-IsValid :
    (s t : TcpSender)
    → IsValid s
    → Fifo.IsValid t.stream
    → t.isn ≡ s.isn
    → t.next_seqno ≡ s.next_seqno
    → t.bytes_in_flight ≡ s.bytes_in_flight
    → t.una_seqno ≡ s.una_seqno
    → t.window_size ≡ s.window_size
    → t.outstanding_segments ≡ s.outstanding_segments
    → IsValid t
same-IsValid s t v stream isn next flight una window outstanding = record {
  stream = stream;
  flight = omega (arith, v.flight, next, flight);
  few = omega (arith, v.few, flight);
  isn = subst Seqno.IsValid (sym isn) v.isn;
  low = omega (arith, v.low, next, flight, una);
  high = omega (arith, v.high, next, una);
  window = omega (arith, v.window, window);
  far = omega (arith, v.far, una);
  chain = chain';
}
  where
    numbered : Chain t.isn (base s) s.outstanding_segments t.next_seqno
    numbered =
        subst₂ (λ i n. Chain i (base s) s.outstanding_segments n) (sym isn) (sym next) v.chain

    chain' : Chain t.isn (base t) t.outstanding_segments t.next_seqno
    chain' =
        subst₂ (λ a l. Chain t.isn a l t.next_seqno) (omega (arith, next, flight)) (sym outstanding)
          numbered

pub same-Backs :
    (rto n k : ℕ) (s t : TcpSender)
    → Backs rto n k s
    → t.initial_retransmission_timeout ≡ s.initial_retransmission_timeout
    → t.consecutive_retrans_times ≡ s.consecutive_retrans_times
    → t.cur_rto ≡ s.cur_rto
    → Backs rto (suc n) k t
same-Backs rto n k s t b initial retries same = record {
  word = b.word;
  initial = initial ∙ b.initial;
  few = omega (arith, b.few);
  counted = retries ∙ b.counted;
  doubled = same ∙ b.doubled;
}

-- When a `tick` of `ms` milliseconds sends the oldest outstanding segment again: if there is one, and
-- the timer is running and has then run for as long as it was set.
abbrev is_over : TcpSender → ℕ → Bool
is_over s ms = s.timer.is_start && leb s.timer.ddl (u64 (s.timer.cur + ms))

abbrev some_segment : List TcpSegment → Bool
some_segment [] = false
some_segment (seg ∷ segs) = true

abbrev pub retransmits : TcpSender → ℕ → Bool
retransmits s ms = is_over s ms && some_segment s.outstanding_segments

-- How many retransmissions there are in a row after a `tick`, where there were `k` before it. One to
-- a window of 0, which is a probe, is not among them.
abbrev pub after_tick : ℕ → TcpSender → ℕ → ℕ
after_tick k s ms = if retransmits s ms && not (s.window_size == 0) then suc k else k

-- The sender as `tick` finds it after the clock has gone on.
abbrev ticked : TcpSender → ℕ → TcpSender
ticked s ms = record s { cur_time = add64 s.cur_time ms; timer = Timer.tick s.timer ms }

outstanding_cases :
    (P : Bool → TcpSender → Type 0) (s : TcpSender) (segs : List TcpSegment)
    → P false s
    → ((seg : TcpSegment) → P true (retransmit s seg))
    → P (some_segment segs) (elim segs [ [] ↦ s | seg ∷ rest ↦ retransmit s seg ])
outstanding_cases P s [] none_left some_left = none_left
outstanding_cases P s (seg ∷ segs) none_left some_left = some_left seg

expired-is_over : (s : TcpSender) (ms : ℕ) → expired (Timer.tick s.timer ms) ≡ is_over s ms
unfolding expired Timer.tick
expired-is_over s ms = ground arith

tick_cases :
    (P : Bool → TcpSender → Type 0) (s : TcpSender) (ms : ℕ)
    → P false (ticked s ms)
    → ((seg : TcpSegment) → P true (retransmit (ticked s ms) seg))
    → P (retransmits s ms) (tick s ms)
unfolding tick
tick_cases P s ms early over = elim (Bool-cases (is_over s ms)) [
  | inl e ↦
      rw (e, expired-is_over s ms ∙ e)
        (outstanding_cases P (ticked s ms) s.outstanding_segments early over)
  | inr e ↦ rw (e, expired-is_over s ms ∙ e) early
]

retransmit-IsValid : (s : TcpSender) → IsValid s → (seg : TcpSegment) → IsValid (retransmit s seg)
unfolding retransmit
retransmit-IsValid s v seg =
    same-IsValid s (retransmit s seg) v v.stream refl refl refl refl refl refl

pub tick-IsValid : (s : TcpSender) (ms : ℕ) → IsValid s → IsValid (tick s ms)
tick-IsValid s ms v =
    tick_cases (λ b. IsValid) s ms
      (same-IsValid s (ticked s ms) v v.stream refl refl refl refl refl refl)
      (retransmit-IsValid (ticked s ms)
        (same-IsValid s (ticked s ms) v v.stream refl refl refl refl refl refl))

doubled_again : (x y r : ℕ) → y ≡ u64 (x * 2 ^ r) → u64 (y * 2) ≡ u64 (x * 2 ^ suc r)
doubled_again x y r e =
    let grown : x * 2 ^ suc r ≡ x * 2 ^ r * 2 =
      ap (λ p. x * p) (pow-suc 2 r) ∙ sym (mul_assoc x (2 ^ r) 2) in
    omega (arith, e, grown)

retransmit-Backs :
    (rto n k : ℕ) (s : TcpSender) (seg : TcpSegment)
    → n < 2 ^ 32 - 1
    → Backs rto n k s
    → Backs rto (suc n) (if not (s.window_size == 0) then suc k else k) (retransmit s seg)
unfolding retransmit
retransmit-Backs rto n k s seg h b = elim (Bool-cases (s.window_size == 0)) [
  | inl closed ↦ rw closed (record {
    word = b.word;
    initial = b.initial;
    few = omega (arith, b.few);
    counted = b.counted;
    doubled = b.doubled;
  })
  | inr open_window ↦ rw open_window (record {
    word = b.word;
    initial = b.initial;
    few = omega (arith, b.few);
    counted = omega (arith, b.counted, b.few);
    doubled = doubled_again rto s.cur_rto k b.doubled;
  })
]

pub tick-Backs :
    (rto n k : ℕ) (s : TcpSender) (ms : ℕ)
    → n < 2 ^ 32 - 1
    → Backs rto n k s
    → Backs rto (suc n) (after_tick k s ms) (tick s ms)
tick-Backs rto n k s ms h b =
    tick_cases
      (λ over t. Backs rto (suc n) (if over && not (s.window_size == 0) then suc k else k) t) s ms
      (same-Backs rto n k s (ticked s ms) b refl refl refl)
      (λ seg. retransmit-Backs rto n k (ticked s ms) seg h (record {
        word = b.word;
        initial = b.initial;
        few = b.few;
        counted = b.counted;
        doubled = b.doubled;
      }))

outstanding-queued :
    (s : TcpSender) (segs : List TcpSegment)
    → let t : TcpSender = elim segs [ [] ↦ s | seg ∷ rest ↦ retransmit s seg ] in
      t.segments_out ≡ (if some_segment segs then s.segments_out ++ take 1 segs else s.segments_out)
unfolding retransmit
outstanding-queued s [] = refl
outstanding-queued s (seg ∷ segs) = refl

-- A `tick` puts the oldest outstanding segment into the queue if it retransmits, and nothing else.
pub tick-queued :
    (s : TcpSender) (ms : ℕ)
    → (tick s ms).segments_out ≡ (
        if retransmits s ms
        then s.segments_out ++ take 1 s.outstanding_segments
        else s.segments_out)
unfolding tick
tick-queued s ms = elim (Bool-cases (is_over s ms)) [
  | inl e ↦
      rw (e, expired-is_over s ms ∙ e) (outstanding-queued (ticked s ms) s.outstanding_segments)
  | inr e ↦ rw (e, expired-is_over s ms ∙ e) refl
]
