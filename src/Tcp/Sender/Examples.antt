-- ===== src/Tcp/Sender/Examples.antt =====
-- Runs of libsponge/tcp_sender.cc.
use sponge_2021fall.Common.{
  ◌≡◌, ◌≤◌, ◌<◌, ◌^◌, ◌-◌, [], ◌∷◌, refl, arith, true, false, max, ◌⊎◌, ◌*◌, u64, subst, ◌++◌, take,
  if◌then◌else◌,
}
use sponge_2021fall.Seqno.{WrappingInt32, wrap, unwrap}
use sponge_2021fall.ByteStream.{ByteStream}
use sponge_2021fall.ByteStream
use sponge_2021fall.Tcp.Timer
use sponge_2021fall.Tcp.Timer.{expired, start, stop}
use sponge_2021fall.Tcp.Segment.{TcpSegment, default_header, length_in_sequence_space}
use sponge_2021fall.Tcp.Sender.{
  init, TcpSender, fill_window, ack_received, tick, retransmit, loop, round, number, add_syn,
  add_payload, add_fin, send, more,
}
use sponge_2021fall.Tcp.Sender.Queue.{Queues}
use sponge_2021fall.Tcp.Sender.Fill.{Filled, IsValid, fill_window-Filled}
use sponge_2021fall.Tcp.Sender.Ack.{Acked, ack_received-Acked}
use sponge_2021fall.Tcp.Sender.Life.{Steps, one_more, Steps-Backs, none_yet, fills, ticks}
use sponge_2021fall.Tcp.Sender.Backoff.{after_tick, retransmits}

abbrev isn : WrappingInt32
isn = record { raw_value = 2 ^ 32 - 2 }

-- Two bytes to send, and no more after them.
abbrev stream : ByteStream
stream = record {
  str = 5 ∷ 6 ∷ [];
  capacity = 8;
  cur_cap = 2;
  bytes_written = 4;
  bytes_read = 2;
  input_is_end = true;
  error = false;
}

abbrev pair : TcpSegment
pair = record { header = record default_header { seqno = wrap 1 isn }; payload = 3 ∷ 4 ∷ [] }

-- SYN is acknowledged, `pair` is in flight, and the window has room for one byte.
abbrev sending : TcpSender
sending = record {
  isn = isn;
  segments_out = [];
  initial_retransmission_timeout = 1000;
  stream = stream;
  next_seqno = 3;
  window_size = 3;
  bytes_in_flight = 2;
  una_seqno = 1;
  outstanding_segments = pair ∷ [];
  timer = record { ddl = 1000; cur = 10; is_start = true };
  cur_time = 30;
  cur_rto = 1000;
  consecutive_retrans_times = 0;
  is_transmission_ended = false;
}

sending-IsValid : IsValid sending
unfolding length_in_sequence_space
sending-IsValid = record {
  stream = omega arith;
  flight = omega arith;
  few = omega arith;
  isn = omega arith;
  low = omega arith;
  high = omega arith;
  window = omega arith;
  far = omega arith;
  chain = (refl, omega arith, refl);
}

fill_window-Filled_example :
    IsValid (fill_window sending)
    × Filled 3 (fill_window sending)
    × ((fill_window sending).bytes_in_flight ≤ max 2 3)
    × Queues sending (fill_window sending)
fill_window-Filled_example = fill_window-Filled sending sending-IsValid (λ e. omega arith)

-- The acknowledgment of `pair`, with a window of one byte.
ack_received-Acked_example :
    IsValid (ack_received sending (wrap 3 isn) 1)
    × (((1 < unwrap (wrap 3 isn) isn 3)
          × (unwrap (wrap 3 isn) isn 3 ≤ 3)
          × Acked
              (record sending { window_size = 1 })
              (unwrap (wrap 3 isn) isn 3)
              (ack_received sending (wrap 3 isn) 1))
        ⊎ (((unwrap (wrap 3 isn) isn 3 ≤ 1) ⊎ (3 < unwrap (wrap 3 isn) isn 3))
            × (ack_received sending (wrap 3 isn) 1 ≡ record sending { window_size = 1 })))
ack_received-Acked_example =
    ack_received-Acked sending (wrap 3 isn) 1 sending-IsValid (omega arith) (omega arith)

-- SYN is sent, and sent again twice.
abbrev opened : TcpSender
opened = fill_window (init 8 1000 isn)

abbrev twice :
    Steps 3
      (init 8 1000 isn)
      (after_tick (after_tick 0 opened 1000) (tick opened 1000) 2000)
      (tick (tick opened 1000) 2000)
twice =
    one_more 2 _ _ _ _ _
      (one_more 1 _ _ _ _ _
        (one_more 0 _ _ _ _ _ (none_yet _)
          (fills 0 (init 8 1000 isn) (λ e. unfold init in omega arith)))
        (ticks 0 opened 1000))
      (ticks _ (tick opened 1000) 2000)

after_twice : after_tick (after_tick 0 opened 1000) (tick opened 1000) 2000 ≡ 2
unfolding tick init fill_window expired Timer.tick start stop retransmit loop round number add_syn
    add_payload add_fin send more ByteStream.init ByteStream.read ByteStream.peek_output
    ByteStream.pop_output ByteStream.buffer_size ByteStream.buffer_empty ByteStream.input_ended
    ByteStream.eof
after_twice = refl

abbrev last : TcpSender
last = tick (tick opened 1000) 2000

Steps-Backs_example :
    IsValid last
    × (last.consecutive_retrans_times ≡ 2)
    × (last.cur_rto ≡ u64 (1000 * 2 ^ 2))
    × ((tick last 4000).segments_out ≡ (
        if retransmits last 4000
        then last.segments_out ++ take 1 last.outstanding_segments
        else last.segments_out))
Steps-Backs_example =
    Steps-Backs 8 1000 isn 3 2 last 4000 (omega arith) (omega arith) (omega arith) (omega arith)
      (subst (λ k. Steps 3 (init 8 1000 isn) k last) after_twice twice)
