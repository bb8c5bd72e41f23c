-- ===== src/Tcp/Connection.antt =====
-- libsponge/tcp_connection.hh and .cc: a receiver and a sender joined to a connection. What the
-- destructor prints is left out. Exceptions come from the reassembler only.
pub mod Output
pub mod Reset
pub mod Answer
pub mod Linger
pub mod Opening
mod Examples
use sponge_2021fall.Common.{
  ℕ, ◌-◌, ◌*◌, ◌^◌, min, Bool, true, false, not, ◌&&◌, ◌||◌, none, some, List, [], ◌∷◌, ◌++◌, add64,
  ltb, ◌==◌, if◌then◌else◌, Result, ok, ◌>>=◌,
}
use sponge_2021fall.Seqno.{WrappingInt32, minus, equals}
use sponge_2021fall.ByteStream.{input_ended, eof, end_input, remaining_capacity}
use sponge_2021fall.ByteStream
use sponge_2021fall.Tcp.Config.{TcpConfig, max_retx_attempts}
use sponge_2021fall.Tcp.Segment.{TcpSegment, length_in_sequence_space}
use sponge_2021fall.Tcp.Receiver.{TcpReceiver, ackno, stream_out, window_size}
use sponge_2021fall.Tcp.Receiver
use sponge_2021fall.Tcp.Sender.{TcpSender, fill_window, ack_received, send_empty_segment}
use sponge_2021fall.Tcp.Sender
use sponge_2021fall.Tcp.State.{TcpState, State, of_state, of_parts}
use sponge_2021fall.Tcp.State.{equals as same_state}

pub record TcpConnection : Type 0 where
  pub cfg : TcpConfig
  pub receiver : TcpReceiver
  pub sender : TcpSender
  pub segments_out : List TcpSegment
  pub linger_after_streams_finish : Bool
  pub time_since_last_seg_received : ℕ

-- `TCPConnection(cfg)`; `isn` is the `fixed_isn` or what `random_device` gives.
unfoldable pub init : TcpConfig → WrappingInt32 → TcpConnection
unfolding Receiver.init Sender.init
init cfg isn = record {
  cfg = cfg;
  receiver = Receiver.init cfg.recv_capacity;
  sender = Sender.init cfg.send_capacity cfg.rt_timeout isn;
  segments_out = [];
  linger_after_streams_finish = true;
  time_since_last_seg_received = 0;
}

unfoldable pub active : TcpConnection → Bool
unfolding input_ended
active c =
    if c.sender.stream.error || (stream_out c.receiver).error
    then false
    else if c.linger_after_streams_finish
        && ltb c.time_since_last_seg_received (10 * c.cfg.rt_timeout)
    then true
    else if not (c.sender.bytes_in_flight == 0)
    then true
    else if input_ended c.sender.stream && input_ended (stream_out c.receiver)
    then false
    else true

unfoldable pub state : TcpConnection → TcpState
unfolding of_parts active
state c = of_parts c.sender c.receiver (active c) c.linger_after_streams_finish

-- A segment of the sender with the receiver's acknowledgment and window.
pub stamp : TcpReceiver → TcpSegment → TcpSegment
unfolding ackno window_size
stamp r seg = elim (ackno r) [
  | none ↦ record seg { header = record (seg.header) { win = min (window_size r) (2 ^ 16 - 1) } }
  | some a ↦ record seg {
    header = record (seg.header) { ack = true; ackno = a; win = min (window_size r) (2 ^ 16 - 1) };
  }
]

-- The loop of `_send_all_outbounding_segments` over the sender's queue.
pub stamp_all : TcpReceiver → List TcpSegment → List TcpSegment → List TcpSegment
unfolding stamp
stamp_all r out [] = out
stamp_all r out (seg ∷ segs) = stamp_all r (out ++ stamp r seg ∷ []) segs

unfoldable pub send_all : TcpConnection → TcpConnection
unfolding stamp_all
send_all c = record c {
  sender = record (c.sender) { segments_out = [] };
  segments_out = stamp_all c.receiver c.segments_out c.sender.segments_out;
}

-- `front` and `pop` of the sender's queue, which `send_empty_segment` has just pushed to.
pub reset_front : TcpConnection → List TcpSegment → TcpConnection
reset_front c [] = c
reset_front c (seg ∷ segs) = record c {
  sender = record (c.sender) { segments_out = segs };
  segments_out = c.segments_out ++ record seg { header = record (seg.header) { rst = true } } ∷ [];
}

-- `_send_rst_segmenet`
unfoldable pub send_rst : TcpConnection → TcpConnection
unfolding reset_front send_empty_segment
send_rst c =
    let s = send_empty_segment c.sender in reset_front (record c { sender = s }) s.segments_out

-- Both streams are set into the error state.
unfoldable pub set_errors : TcpConnection → TcpConnection
unfolding Receiver.set_stream_error Sender.set_stream_error
set_errors c = record c {
  sender = Sender.set_stream_error c.sender;
  receiver = Receiver.set_stream_error c.receiver;
}

-- "Repeat to a TCP keep-alive segment": the test.
unfoldable pub is_keep_alive : TcpConnection → TcpSegment → Bool
unfolding ackno length_in_sequence_space minus equals
is_keep_alive c seg = elim (ackno c.receiver) [
  | none ↦ false
  | some a ↦ length_in_sequence_space seg == 0 && equals seg.header.seqno (minus a 1)
]

-- After the receiver has had the segment: the acknowledgment, and the end of lingering.
pub note_ack : TcpConnection → TcpSegment → TcpConnection
unfolding input_ended eof
note_ack c seg =
    let s =
      if seg.header.ack then ack_received c.sender seg.header.ackno seg.header.win else c.sender in
    record c {
      sender = s;
      linger_after_streams_finish =
          if input_ended (stream_out c.receiver) && not (eof s.stream)
          then false
          else c.linger_after_streams_finish;
    }

-- From `_sender.fill_window()` on.
pub answer : TcpConnection → TcpSegment → TcpConnection
unfolding length_in_sequence_space
answer c seg =
    let s = fill_window c.sender in
    let c' = record c { sender = s } in
    elim s.segments_out [
      | [] ↦
          if length_in_sequence_space seg == 0
          then c'
          else send_all (record c { sender = send_empty_segment s })
      | _ ∷ _ ↦ send_all c'
    ]

unfoldable pub segment_received : TcpConnection → TcpSegment → Result TcpConnection
unfolding set_errors is_keep_alive send_all send_empty_segment state of_state same_state
    Receiver.segment_received note_ack answer
segment_received c0 seg =
    let c = record c0 { time_since_last_seg_received = 0 } in
    if seg.header.rst
    then ok (set_errors c)
    else if is_keep_alive c seg
    then ok (send_all (record c { sender = send_empty_segment c.sender }))
    else if same_state (state c) (of_state State.listen) && not seg.header.syn
    then ok c
    else (Receiver.segment_received c.receiver seg >>= λ r.
        ok (answer (note_ack (record c { receiver = r }) seg) seg))

unfoldable pub remaining_outbound_capacity : TcpConnection → ℕ
unfolding remaining_capacity
remaining_outbound_capacity c = remaining_capacity c.sender.stream

unfoldable pub write : TcpConnection → List ℕ → ℕ × TcpConnection
write c bytes =
    let (n, stream) = ByteStream.write c.sender.stream bytes in
    (n, send_all (record c { sender = fill_window (record (c.sender) { stream = stream }) }))

unfoldable pub tick : TcpConnection → ℕ → TcpConnection
tick c ms_since_last_tick =
    let c' = record c {
      time_since_last_seg_received = add64 c.time_since_last_seg_received ms_since_last_tick;
      sender = Sender.tick c.sender ms_since_last_tick;
    } in
    if ltb max_retx_attempts c'.sender.consecutive_retrans_times
    then set_errors (send_rst c')
    else send_all c'

-- The end of `end_input_stream`: only if the sender's first segment has the FIN flag.
pub send_fin : TcpConnection → List TcpSegment → TcpConnection
send_fin c [] = c
send_fin c (seg ∷ segs) = if seg.header.fin then send_all c else c

unfoldable pub end_input_stream : TcpConnection → TcpConnection
unfolding send_fin
end_input_stream c =
    let s = fill_window (record (c.sender) { stream = end_input c.sender.stream }) in
    send_fin (record c { sender = s }) s.segments_out

unfoldable pub connect : TcpConnection → TcpConnection
connect c = send_all (record c { sender = fill_window c.sender })

-- `~TCPConnection()`
unfoldable pub destroy : TcpConnection → TcpConnection
unfolding active send_rst
destroy c = if active c then send_rst c else c
