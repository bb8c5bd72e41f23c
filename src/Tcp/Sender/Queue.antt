-- ===== src/Tcp/Sender/Queue.antt =====
-- What `TCPSender::fill_window` of libsponge/tcp_sender.cc puts into its queue of segments.
use sponge_2021fall.Common.{
  ℕ, zero, suc, ◌≡◌, ◌⊎◌, inl, inr, refl, arith, Bool, true, false, not, ◌||◌, ◌==◌, List, [], ◌∷◌,
  ◌++◌, length, min, sub64, ap, sym, ◌∙◌, append-nil, append_assoc, if_cases, leb, Bool-cases,
}
use sponge_2021fall.ByteStream.{ByteStream}
use sponge_2021fall.ByteStream.Fifo
use sponge_2021fall.ByteStream.Fifo.{read_lem}
use sponge_2021fall.Tcp.Config.{max_payload_size}
use sponge_2021fall.Tcp.Segment.{TcpSegment, default_segment}
use sponge_2021fall.Tcp.Sender.{
  TcpSender, number, add_syn, add_payload, add_fin, send, round, more, loop, fill_window,
  actual_window_size,
}

-- The bytes of some segments, one segment after the other.
abbrev pub payloads : List TcpSegment → List ℕ
payloads [] = []
payloads (seg ∷ segs) = seg.payload ++ payloads segs

abbrev pub any_fin : List TcpSegment → Bool
any_fin [] = false
any_fin (seg ∷ segs) = seg.header.fin || any_fin segs

-- New segments, in the queue and outstanding alike, with the bytes that are taken from the stream,
-- and with a FIN if the transmission has ended by them.
pub record Queues (s s' : TcpSender) : Type 0 where
  pub stream : Fifo.IsValid s'.stream
  pub new : List TcpSegment
  pub queued : s'.segments_out ≡ s.segments_out ++ new
  pub outstanding : s'.outstanding_segments ≡ s.outstanding_segments ++ new
  pub bytes : payloads new ++ s'.stream.str ≡ s.stream.str
  pub fin :
      s'.is_transmission_ended ≡ true → (s.is_transmission_ended ≡ true) ⊎ (any_fin new ≡ true)

same-Queues : (s : TcpSender) → Fifo.IsValid s.stream → Queues s s
same-Queues s v = record {
  stream = v;
  new = [];
  queued = sym (append-nil s.segments_out);
  outstanding = sym (append-nil s.outstanding_segments);
  bytes = refl;
  fin = λ e. inl e;
}

payloads-append : (xs ys : List TcpSegment) → payloads (xs ++ ys) ≡ payloads xs ++ payloads ys
payloads-append [] ys = refl
payloads-append (x ∷ xs) ys =
    ap (λ l. x.payload ++ l) (payloads-append xs ys) ∙ sym (append_assoc x.payload _ _)

any_fin-append : (xs ys : List TcpSegment) → any_fin (xs ++ ys) ≡ (any_fin xs || any_fin ys)
any_fin-append [] ys = refl
any_fin-append (x ∷ xs) ys = ground (arith, any_fin-append xs ys)

Queues-trans : (s t u : TcpSender) → Queues s t → Queues t u → Queues s u
Queues-trans s t u a b = record {
  stream = b.stream;
  new = a.new ++ b.new;
  queued = b.queued ∙ ap (λ l. l ++ b.new) a.queued ∙ append_assoc s.segments_out a.new b.new;
  outstanding =
      b.outstanding
      ∙ ap (λ l. l ++ b.new) a.outstanding
      ∙ append_assoc s.outstanding_segments a.new b.new;
  bytes =
      ap (λ l. l ++ u.stream.str) (payloads-append a.new b.new)
      ∙ append_assoc (payloads a.new) (payloads b.new) u.stream.str
      ∙ ap (λ l. payloads a.new ++ l) b.bytes
      ∙ a.bytes;
  fin = λ e. elim (b.fin e) [
    | inl before ↦ elim (a.fin before) [
      | inl first ↦ inl first
      | inr some_fin ↦ inr (ground (arith, any_fin-append a.new b.new, some_fin))
    ]
    | inr some_fin ↦ inr (ground (arith, any_fin-append a.new b.new, some_fin))
  ];
}

-- A segment that is made, and not yet sent.
record Makes (s : TcpSender) (p : TcpSender × TcpSegment) : Type 0 where
  stream : Fifo.IsValid p.0.stream
  queued : p.0.segments_out ≡ s.segments_out
  outstanding : p.0.outstanding_segments ≡ s.outstanding_segments
  bytes : p.1.payload ++ p.0.stream.str ≡ s.stream.str
  fin :
      p.0.is_transmission_ended ≡ true → (s.is_transmission_ended ≡ true) ⊎ (p.1.header.fin ≡ true)

payload-Makes :
    (s t : TcpSender) (seg : TcpSegment) (window : ℕ)
    → Fifo.IsValid t.stream
    → t.stream ≡ s.stream
    → t.segments_out ≡ s.segments_out
    → t.outstanding_segments ≡ s.outstanding_segments
    → t.is_transmission_ended ≡ s.is_transmission_ended
    → Makes s (add_payload window (t, seg))
unfolding add_payload
payload-Makes s t seg window v stream queued outstanding ended =
    let (split, size, valid) =
      read_lem t.stream (min (sub64 window t.bytes_in_flight) max_payload_size) v in
    record {
      stream = valid;
      queued = queued;
      outstanding = outstanding;
      bytes = split ∙ ap (λ (b : ByteStream). b.str) stream;
      fin = λ e. inl (sym ended ∙ e);
    }

syn-Makes :
    (s : TcpSender) (seg : TcpSegment) (window : ℕ)
    → Fifo.IsValid s.stream
    → Makes s (add_payload window (add_syn (s, number s seg)))
unfolding add_syn
syn-Makes s seg window v =
    if_cases (λ p. Makes s (add_payload window p)) (s.next_seqno == 0)
      (payload-Makes s _ _ window v refl refl refl refl)
      (payload-Makes s s (number s seg) window v refl refl refl refl)

fin-Makes :
    (s : TcpSender) (window : ℕ) (p : TcpSender × TcpSegment)
    → Makes s p
    → Makes s (add_fin window p)
unfolding add_fin
fin-Makes s window (t, seg) m = ground (arith, m.stream, m.queued, m.outstanding, m.bytes, m.fin)

no_bytes : (xs : List ℕ) → length xs ≡ 0 → xs ≡ []
no_bytes [] e = refl
no_bytes (x ∷ xs) e = absurd (omega (arith, e))

send-Queues : (s : TcpSender) (p : TcpSender × TcpSegment) → Makes s p → Queues s (send p).0
unfolding send
send-Queues s (t, seg) m =
    elim (Bool-cases (not (length seg.payload == 0) || (seg.header.syn || seg.header.fin))) [
      | inl some_data ↦ rw some_data (record {
        stream = m.stream;
        new = seg ∷ [];
        queued = ap (λ l. l ++ seg ∷ []) m.queued;
        outstanding = ap (λ l. l ++ seg ∷ []) m.outstanding;
        bytes = ap (λ l. l ++ t.stream.str) (append-nil seg.payload) ∙ m.bytes;
        fin = λ e. elim (m.fin e) [ inl before ↦ inl before | inr f ↦ inr (ground (arith, f)) ];
      })
      | inr no_data ↦
          let gone = no_bytes seg.payload (ground (arith, no_data)) in
          rw no_data (record {
            stream = m.stream;
            new = [];
            queued = m.queued ∙ sym (append-nil s.segments_out);
            outstanding = m.outstanding ∙ sym (append-nil s.outstanding_segments);
            bytes = ap (λ l. l ++ t.stream.str) (sym gone) ∙ m.bytes;
            fin = λ e. elim (m.fin e) [
              | inl before ↦ inl before
              | inr f ↦ absurd (ground (arith, f, no_data))
            ];
          })
    ]

round-Queues :
    (s : TcpSender) (seg : TcpSegment) (window : ℕ)
    → Fifo.IsValid s.stream
    → Queues s (round window (s, seg)).0
unfolding round
round-Queues s seg window v = send-Queues s _ (fin-Makes s window _ (syn-Makes s seg window v))

loop-Queues :
    (fuel window : ℕ) (s : TcpSender) (seg : TcpSegment)
    → Fifo.IsValid s.stream
    → Queues s (loop fuel window (s, seg))
unfolding loop
loop-Queues zero window s seg v = same-Queues s v
loop-Queues (suc fuel) window s seg v =
    let one = round-Queues s seg window v in
    let t = (round window (s, seg)).0 in
    let again : Queues s (loop fuel window (round window (s, seg))) =
      Queues-trans s t _ one (loop-Queues fuel window t (round window (s, seg)).1 one.stream) in
    elim s.is_transmission_ended
      as (λ b. Queues s (elim b [
        | true ↦ s
        | false ↦ elim (more window t) [
          | true ↦ loop fuel window (round window (s, seg))
          | false ↦ t
        ]
      ])) [
        | true ↦ same-Queues s v
        | false ↦
            elim (more window t)
              as (λ b.
                Queues s (elim b [ true ↦ loop fuel window (round window (s, seg)) | false ↦ t ])) [
                  | true ↦ again
                  | false ↦ one
                ]
      ]

pub fill_window-Queues : (s : TcpSender) → Fifo.IsValid s.stream → Queues s (fill_window s)
unfolding fill_window
fill_window-Queues s v =
    if_cases (Queues s) (leb (actual_window_size s) s.bytes_in_flight) (same-Queues s v)
      (loop-Queues (suc (length s.stream.str)) (actual_window_size s) s default_segment v)
