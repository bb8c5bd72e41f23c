-- ===== src/Tcp/Connection/Reset.antt =====
-- The reset of a connection in libsponge/tcp_connection.cc: by a segment with RST, and by too many
-- retransmissions.
use sponge_2021fall.Common.{
  ℕ, List, [], ◌∷◌, ◌++◌, ◌≡◌, ◌<◌, arith, refl, true, false, ok, add64, ltb,
}
use sponge_2021fall.Tcp.Config.{max_retx_attempts}
use sponge_2021fall.Tcp.Segment.{TcpSegment}
use sponge_2021fall.Tcp.Receiver
use sponge_2021fall.Tcp.Sender
use sponge_2021fall.Tcp.Sender.{TcpSender, send_empty_segment}
use sponge_2021fall.Tcp.State.{State, of_state, of_parts, receiver_summary, sender_summary}
use sponge_2021fall.Tcp.Connection.{
  TcpConnection, reset_front, send_rst, active, state, set_errors, segment_received, tick,
}
use sponge_2021fall.ByteStream.{set_error}

set_errors-state : (c : TcpConnection) → state (set_errors c) ≡ of_state State.reset
unfolding state set_errors of_parts active receiver_summary sender_summary of_state
    Receiver.set_stream_error Sender.set_stream_error set_error
set_errors-state c = refl

set_errors-active : (c : TcpConnection) → active (set_errors c) ≡ false
unfolding active set_errors Receiver.set_stream_error Sender.set_stream_error set_error
set_errors-active c = refl

-- A segment with RST, whatever else it carries, puts every connection into the state RESET, makes
-- it inactive, and is not answered.
pub segment_received-reset :
    (c : TcpConnection) (seg : TcpSegment)
    → seg.header.rst ≡ true
    → (c' : TcpConnection) × (segment_received c seg ≡ ok c')
      × (state c' ≡ of_state State.reset)
      × (active c' ≡ false)
      × (c'.segments_out ≡ c.segments_out)
unfolding segment_received
segment_received-reset c seg rst =
    let c1 = record c { time_since_last_seg_received = 0 } in
    (set_errors c1, simp rst, set_errors-state c1, set_errors-active c1, unfold set_errors in refl)

-- What `_send_rst_segmenet` puts out: one segment, with the RST flag.
pub record SendsReset (c c' : TcpConnection) : Type 0 where
  pub sent : TcpSegment
  pub rst : sent.header.rst ≡ true
  pub out : c'.segments_out ≡ c.segments_out ++ sent ∷ []

reset_front-SendsReset :
    (c : TcpConnection) (segs : List TcpSegment) (last : TcpSegment)
    → SendsReset c (reset_front c (segs ++ last ∷ []))
unfolding reset_front
reset_front-SendsReset c [] last = record { sent = _; rst = refl; out = refl }
reset_front-SendsReset c (seg ∷ segs) last = record { sent = _; rst = refl; out = refl }

send_rst-SendsReset : (c : TcpConnection) → SendsReset c (send_rst c)
unfolding send_rst send_empty_segment
send_rst-SendsReset c =
    let s = send_empty_segment c.sender in
    let r = reset_front-SendsReset (record c { sender = s }) c.sender.segments_out _ in
    record { sent = r.sent; rst = r.rst; out = r.out }

-- A `tick` that leaves the sender with more than `MAX_RETX_ATTEMPTS` retransmissions in a row puts
-- the connection into the state RESET, makes it inactive, and puts out one segment, with the RST
-- flag.
pub tick-reset :
    (c : TcpConnection) (ms : ℕ)
    → max_retx_attempts < (Sender.tick c.sender ms).consecutive_retrans_times
    → SendsReset c (tick c ms)
      × (state (tick c ms) ≡ of_state State.reset)
      × (active (tick c ms) ≡ false)
unfolding tick
tick-reset c ms h =
    let c1 = record c {
      time_since_last_seg_received = add64 c.time_since_last_seg_received ms;
      sender = Sender.tick c.sender ms;
    } in
    let given_up : ltb max_retx_attempts (Sender.tick c.sender ms).consecutive_retrans_times
        ≡ true =
      ground arith in
    let r = send_rst-SendsReset c1 in
    rw given_up (
      record { sent = r.sent; rst = r.rst; out = unfold set_errors in r.out },
      set_errors-state (send_rst c1),
      set_errors-active (send_rst c1),
    )
