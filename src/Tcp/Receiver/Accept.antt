-- ===== src/Tcp/Receiver/Accept.antt =====
-- `TCPReceiver::segment_received` of libsponge/tcp_receiver.cc: where in the stream a segment's
-- payload goes.
use sponge_2021fall.Common.{
  ℕ, ok, some, IsU64, length, ◌≡◌, false, none, true, ◌+◌, ◌%◌, ◌<◌, ◌^◌, ◌≢◌, ◌≤◌, arith, sub64,
  refl, ap, sym, Option, ◌∙◌,
}
use sponge_2021fall.Seqno.{WrappingInt32, wrap, unwrap, equals, plus}
use sponge_2021fall.Seqno
use sponge_2021fall.Seqno.RoundTrip.{dist, unwrap-wrap}
use sponge_2021fall.Reassembler.Finish.{IsValid, top}
use sponge_2021fall.Reassembler.Push.{Pushed, push_substring-Pushed}
use sponge_2021fall.Reassembler.{Reassembler}
use sponge_2021fall.Tcp.Segment.{TcpSegment}
use sponge_2021fall.Tcp.Receiver.{TcpReceiver, segment_received, accept}

-- The hypotheses on a payload for index `index` of a stream whose first byte has number `isn + 1`.
pub record InReach (r : TcpReceiver) (isn : WrappingInt32) (index : ℕ) (size : ℕ) : Type 0 where
  pub valid : IsValid r.reassembler
  pub word : IsU64 (top r.reassembler)
  pub isn_word : Seqno.IsValid isn
  pub near : dist (index + 1) r.reassembler.cur_index < 2 ^ 31
  pub in_window : index ≤ top r.reassembler
  pub end_word : IsU64 (index + 1 + size)

accept-Pushed :
    (r : TcpReceiver) (isn : WrappingInt32) (seg : TcpSegment) (index : ℕ)
    → InReach r isn index (length seg.payload)
    → (index + 1) % 2 ^ 32 ≢ 0
    → (q : Reassembler) × (accept r isn (wrap (index + 1) isn) seg
        ≡ ok (record r { reassembler = q }))
      × Pushed r.reassembler seg.payload index q
unfolding accept
accept-Pushed r isn seg index h ne =
    let (q, e, p) =
      push_substring-Pushed r.reassembler seg.payload index seg.header.fin h.valid h.word
        h.in_window (omega (arith, h.end_word)) in
    let fresh : equals isn (wrap (index + 1) isn) ≡ false =
      unfold equals wrap in ground (arith, h.isn_word) in
    let back : unwrap (wrap (index + 1) isn) isn r.reassembler.cur_index ≡ index + 1 =
      unwrap-wrap (index + 1) isn r.reassembler.cur_index h.isn_word (omega (arith, h.end_word))
        (omega (arith, h.word)) h.near in
    let place : sub64 (index + 1) 1 ≡ index = omega (arith, h.end_word) in
    (q, rw (fresh, back, place, e) refl, p)

segment_received-syn :
    (r : TcpReceiver) (seg : TcpSegment)
    → seg.header.syn ≡ true
    → segment_received r seg
      ≡ accept
          (record r { isn = some seg.header.seqno })
          seg.header.seqno
          (plus seg.header.seqno 1)
          seg
unfolding segment_received
segment_received-syn r seg syn = simp syn

segment_received-known :
    (r : TcpReceiver) (isn : WrappingInt32) (seg : TcpSegment)
    → r.isn ≡ some isn
    → seg.header.syn ≡ false
    → segment_received r seg ≡ accept (record r { isn = some isn }) isn seg.header.seqno seg
unfolding segment_received
segment_received-known r isn seg known plain = simp (plain, known)

-- Reach does not turn on what the receiver knows of the initial number.
InReach-isn :
    (r : TcpReceiver) (isn : WrappingInt32) (index size : ℕ) (o : Option WrappingInt32)
    → InReach r isn index size
    → InReach (record r { isn = o }) isn index size
InReach-isn r isn index size o h = record {
  valid = h.valid;
  word = h.word;
  isn_word = h.isn_word;
  near = h.near;
  in_window = h.in_window;
  end_word = h.end_word;
}

-- A segment without SYN whose sequence number stands for index `index` of the stream, within reach
-- of the receiver, is taken without an exception, and hands exactly the bytes in the window to the
-- reassembler. The one sequence number excluded is the initial one.
pub segment_received-Pushed :
    (r : TcpReceiver) (isn : WrappingInt32) (seg : TcpSegment) (index : ℕ)
    → r.isn ≡ some isn
    → seg.header.syn ≡ false
    → seg.header.seqno ≡ wrap (index + 1) isn
    → InReach r isn index (length seg.payload)
    → (index + 1) % 2 ^ 32 ≢ 0
    → (q : Reassembler) × (segment_received r seg
        ≡ ok (record r { reassembler = q; isn = some isn }))
      × Pushed r.reassembler seg.payload index q
segment_received-Pushed r isn seg index known plain place h ne =
    let (q, e, p) =
      accept-Pushed (record r { isn = some isn }) isn seg index
        (InReach-isn r isn index (length seg.payload) (some isn) h) ne in
    (
      q,
      segment_received-known r isn seg known plain
          ∙ ap (λ n. accept (record r { isn = some isn }) isn n seg) place
          ∙ e,
      p,
    )

-- The bytes of a segment with SYN go to the start of the stream, and its number is the initial one.
pub syn_received-Pushed :
    (r : TcpReceiver) (seg : TcpSegment)
    → seg.header.syn ≡ true
    → InReach r seg.header.seqno 0 (length seg.payload)
    → (q : Reassembler) × (segment_received r seg
        ≡ ok (record r { reassembler = q; isn = some seg.header.seqno }))
      × Pushed r.reassembler seg.payload 0 q
syn_received-Pushed r seg syn h =
    let isn = seg.header.seqno in
    let (q, e, p) =
      accept-Pushed (record r { isn = some isn }) isn seg 0
        (InReach-isn r isn 0 (length seg.payload) (some isn) h) (omega arith) in
    let first : plus isn 1 ≡ wrap (0 + 1) isn =
      unfold plus wrap in ap (λ v. record { raw_value = v }) (omega (arith, h.isn_word)) in
    (
      q,
      segment_received-syn r seg syn
          ∙ ap (λ n. accept (record r { isn = some isn }) isn n seg) first
          ∙ e,
      p,
    )

-- Any other segment before the first SYN is dropped.
pub unsynchronised_dropped :
    (r : TcpReceiver) (seg : TcpSegment)
    → r.isn ≡ none
    → seg.header.syn ≡ false
    → segment_received r seg ≡ ok r
unfolding segment_received
unsynchronised_dropped r seg fresh plain = rw (plain, fresh)

-- A segment without SYN that has the initial sequence number is dropped, also where that number
-- stands for a byte of the window, 2 ^ 32 bytes into the stream.
pub initial_number_dropped :
    (r : TcpReceiver) (isn : WrappingInt32) (seg : TcpSegment) (index : ℕ)
    → r.isn ≡ some isn
    → Seqno.IsValid isn
    → seg.header.syn ≡ false
    → (index + 1) % 2 ^ 32 ≡ 0
    → seg.header.seqno ≡ wrap (index + 1) isn
    → segment_received r seg ≡ ok r
initial_number_dropped r isn seg index known valid plain lap place =
    let same : equals isn (wrap (index + 1) isn) ≡ true = unfold equals wrap in ground arith in
    let dropped : accept (record r { isn = some isn }) isn (wrap (index + 1) isn) seg
        ≡ ok (record r { isn = some isn }) =
      unfold accept in rw same in
    segment_received-known r isn seg known plain
    ∙ ap (λ n. accept (record r { isn = some isn }) isn n seg) place
    ∙ dropped
    ∙ ap (λ o. ok (record r { isn = o })) (sym known)
