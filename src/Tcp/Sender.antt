-- ===== src/Tcp/Sender.antt =====
-- libsponge/tcp_sender.hh and .cc: from the outbound stream to segments, acknowledgments and
-- retransmission. The initial sequence number is an argument, as `fixed_isn` or `random_device`
-- gives it. The `do` loop of `fill_window` runs on fuel, one more than there are bytes to send.
pub mod Round
pub mod Progress
pub mod Queue
pub mod Fill
pub mod Ack
pub mod Backoff
pub mod Life
pub mod Opening
mod Examples
use sponge_2021fall.Common.{
  ℕ, zero, suc, ◌+◌, ◌-◌, ◌%◌, ◌^◌, ◌*◌, min, Bool, true, false, not, ◌&&◌, ◌||◌, List, [], ◌∷◌,
  ◌++◌, length, add32, add64, sub64, u64, ltb, leb, ◌==◌, if◌then◌else◌,
}
use sponge_2021fall.Seqno.{WrappingInt32, wrap, unwrap}
use sponge_2021fall.ByteStream.{ByteStream, read, input_ended, eof, buffer_empty, set_error}
use sponge_2021fall.ByteStream
use sponge_2021fall.Tcp.Config.{max_payload_size}
use sponge_2021fall.Tcp.Segment.{TcpHeader, TcpSegment, default_segment, length_in_sequence_space}
use sponge_2021fall.Tcp.Timer.{RetransmissionTimer, idle, expired, start, stop}
use sponge_2021fall.Tcp.Timer

pub record TcpSender : Type 0 where
  pub isn : WrappingInt32
  pub segments_out : List TcpSegment
  pub initial_retransmission_timeout : ℕ
  pub stream : ByteStream
  pub next_seqno : ℕ
  pub window_size : ℕ
  pub bytes_in_flight : ℕ
  pub una_seqno : ℕ
  pub outstanding_segments : List TcpSegment
  pub timer : RetransmissionTimer
  pub cur_time : ℕ
  pub cur_rto : ℕ
  pub consecutive_retrans_times : ℕ
  pub is_transmission_ended : Bool

-- The constructor `TCPSender(capacity, retx_timeout, isn)`.
unfoldable pub init : ℕ → ℕ → WrappingInt32 → TcpSender
unfolding ByteStream.init
init capacity retx_timeout isn = record {
  isn = isn;
  segments_out = [];
  initial_retransmission_timeout = retx_timeout;
  stream = ByteStream.init capacity;
  next_seqno = 0;
  window_size = 1;
  bytes_in_flight = 0;
  una_seqno = 0;
  outstanding_segments = [];
  timer = idle;
  cur_time = 0;
  cur_rto = retx_timeout;
  consecutive_retrans_times = 0;
  is_transmission_ended = false;
}

-- `seg.header().seqno = wrap(_next_seqno, _isn)`
pub number : TcpSender → TcpSegment → TcpSegment
number s seg = record seg { header = record (seg.header) { seqno = wrap s.next_seqno s.isn } }

-- "It's a SYN segment."
pub add_syn : TcpSender × TcpSegment → TcpSender × TcpSegment
add_syn (s, seg) =
    if s.next_seqno == 0
    then (
      record s { next_seqno = add64 s.next_seqno 1; bytes_in_flight = add64 s.bytes_in_flight 1 },
      record seg { header = record (seg.header) { syn = true } },
    )
    else (s, seg)

-- The payload is read from the stream.
pub add_payload : ℕ → TcpSender × TcpSegment → TcpSender × TcpSegment
add_payload window (s, seg) =
    let (bytes, rest) = read s.stream (min (sub64 window s.bytes_in_flight) max_payload_size) in
    (
      record s {
        stream = rest;
        bytes_in_flight = add64 s.bytes_in_flight (length bytes);
        next_seqno = add64 s.next_seqno (length bytes);
      },
      record seg { payload = bytes },
    )

-- "Set FIN flag when we are assure that outstream was closed and all data has been sent."
pub add_fin : ℕ → TcpSender × TcpSegment → TcpSender × TcpSegment
unfolding input_ended eof
add_fin window (s, seg) =
    if input_ended s.stream && (eof s.stream && not (sub64 window s.bytes_in_flight == 0))
    then (
      record s {
        next_seqno = add64 s.next_seqno 1;
        bytes_in_flight = add64 s.bytes_in_flight 1;
        is_transmission_ended = true;
      },
      record seg { header = record (seg.header) { fin = true } },
    )
    else (s, seg)

-- Nothing is sent that takes up no sequence number.
pub send : TcpSender × TcpSegment → TcpSender × TcpSegment
unfolding start
send (s, seg) =
    if not (length seg.payload == 0) || (seg.header.syn || seg.header.fin)
    then (
      record s {
        segments_out = s.segments_out ++ seg ∷ [];
        outstanding_segments = s.outstanding_segments ++ seg ∷ [];
        timer = start s.timer s.cur_rto;
      },
      seg,
    )
    else (s, seg)

-- One round of the loop after the test of `_is_transmission_ended`. The segment is declared outside
-- the loop: each round starts from the one of the round before.
pub round : ℕ → TcpSender × TcpSegment → TcpSender × TcpSegment
unfolding number add_syn add_payload add_fin send
round window (s, seg) = send (add_fin window (add_payload window (add_syn (s, number s seg))))

-- The condition of the loop.
pub more : ℕ → TcpSender → Bool
unfolding buffer_empty
more window s = not (buffer_empty s.stream) && not (sub64 window s.bytes_in_flight == 0)

pub loop : ℕ → ℕ → TcpSender × TcpSegment → TcpSender
unfolding round more
loop zero window (s, seg) = s
loop (suc fuel) window (s, seg) = elim s.is_transmission_ended [
  | true ↦ s
  | false ↦
      let (s', seg') = round window (s, seg) in
      elim (more window s') [ true ↦ loop fuel window (s', seg') | false ↦ s' ]
]

abbrev pub actual_window_size : TcpSender → ℕ
actual_window_size s = if s.window_size == 0 then 1 else s.window_size

unfoldable pub fill_window : TcpSender → TcpSender
unfolding loop
fill_window s =
    let window = actual_window_size s in
    if leb window s.bytes_in_flight
    then s
    else loop (suc (length s.stream.str)) window (s, default_segment)

-- The loop of `ack_received` over the outstanding segments, with `_bytes_in_flight`.
pub pop_acked : ℕ → WrappingInt32 → ℕ → ℕ → List TcpSegment → ℕ × List TcpSegment
pop_acked ackno_abs isn next_seqno in_flight [] = (in_flight, [])
pop_acked ackno_abs isn next_seqno in_flight (seg ∷ segs) =
    let rest =
      pop_acked ackno_abs isn next_seqno (sub64 in_flight (length_in_sequence_space seg)) segs in
    if leb (add64 (unwrap seg.header.seqno isn next_seqno) (length_in_sequence_space seg)) ackno_abs
    then rest
    else (in_flight, seg ∷ segs)

-- `ack_received` past the test of acceptability.
pub accept_ack : TcpSender → ℕ → TcpSender
unfolding pop_acked start stop
accept_ack s ackno_abs =
    let (in_flight, segs) =
      pop_acked ackno_abs s.isn s.next_seqno s.bytes_in_flight s.outstanding_segments in
    record s {
      una_seqno = ackno_abs;
      bytes_in_flight = in_flight;
      outstanding_segments = segs;
      cur_rto = s.initial_retransmission_timeout;
      consecutive_retrans_times = 0;
      timer = elim segs [
        | [] ↦ stop s.timer
        | seg ∷ rest ↦ start (stop s.timer) s.initial_retransmission_timeout
      ];
    }

unfoldable pub ack_received : TcpSender → WrappingInt32 → ℕ → TcpSender
unfolding accept_ack
ack_received s ackno window_size =
    let ackno_abs = unwrap ackno s.isn s.next_seqno in
    let s' = record s { window_size = window_size } in
    if leb ackno_abs s.una_seqno || ltb s.next_seqno ackno_abs then s' else accept_ack s' ackno_abs

-- The branch of `tick` where the timer has expired and a segment is outstanding.
pub retransmit : TcpSender → TcpSegment → TcpSender
unfolding start stop
retransmit s seg =
    let rto = if s.window_size == 0 then s.cur_rto else u64 (s.cur_rto * 2) in
    record s {
      segments_out = s.segments_out ++ seg ∷ [];
      consecutive_retrans_times =
          if s.window_size == 0
          then s.consecutive_retrans_times
          else add32 s.consecutive_retrans_times 1;
      cur_rto = rto;
      timer = start (stop s.timer) rto;
    }

unfoldable pub tick : TcpSender → ℕ → TcpSender
unfolding retransmit Timer.tick expired
tick s ms_since_last_tick =
    let s' = record s {
      cur_time = add64 s.cur_time ms_since_last_tick;
      timer = Timer.tick s.timer ms_since_last_tick;
    } in
    if expired s'.timer
    then elim s.outstanding_segments [ [] ↦ s' | seg ∷ segs ↦ retransmit s' seg ]
    else s'

unfoldable pub send_empty_segment : TcpSender → TcpSender
unfolding number
send_empty_segment s = record s { segments_out = s.segments_out ++ number s default_segment ∷ [] }

-- `next_seqno()`
unfoldable pub next_seqno_wrapped : TcpSender → WrappingInt32
next_seqno_wrapped s = wrap s.next_seqno s.isn

-- `stream_in().set_error()`
unfoldable pub set_stream_error : TcpSender → TcpSender
set_stream_error s = record s { stream = set_error s.stream }
