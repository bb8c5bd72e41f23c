-- ===== src/Tcp/Sender/Opening.antt =====
-- The first call of `fill_window` in libsponge/tcp_sender.cc.
use sponge_2021fall.Common.{ℕ, ◌≡◌, refl, true, [], ◌∷◌}
use sponge_2021fall.Seqno.{WrappingInt32, wrap}
use sponge_2021fall.ByteStream
use sponge_2021fall.Tcp.Segment.{TcpSegment, default_segment}
use sponge_2021fall.Tcp.Timer.{idle, start}
use sponge_2021fall.Tcp.Sender.{
  TcpSender, init, fill_window, loop, round, number, add_syn, add_payload, add_fin, send, more,
}

abbrev pub syn_segment : WrappingInt32 → TcpSegment
syn_segment isn = record default_segment {
  header = record (default_segment.header) { seqno = wrap 0 isn; syn = true };
}

-- A new sender with its SYN in flight.
abbrev pub opened : ℕ → ℕ → WrappingInt32 → TcpSender
opened capacity retx_timeout isn = record (init capacity retx_timeout isn) {
  segments_out = syn_segment isn ∷ [];
  outstanding_segments = syn_segment isn ∷ [];
  next_seqno = 1;
  bytes_in_flight = 1;
  timer = start idle retx_timeout;
}

-- A new sender first sends its SYN, without bytes, and no more before that is acknowledged.
pub fill_window-init :
    (capacity retx_timeout : ℕ) (isn : WrappingInt32)
    → fill_window (init capacity retx_timeout isn) ≡ opened capacity retx_timeout isn
unfolding init fill_window loop round number add_syn add_payload add_fin send more start
    ByteStream.init ByteStream.read ByteStream.peek_output ByteStream.pop_output
    ByteStream.buffer_size ByteStream.buffer_empty ByteStream.input_ended ByteStream.eof
fill_window-init capacity retx_timeout isn = refl
