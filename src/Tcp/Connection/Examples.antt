-- ===== src/Tcp/Connection/Examples.antt =====
-- Runs of libsponge/tcp_connection.cc.
use sponge_2021fall.Common.{◌≡◌, [], ◌∷◌, refl, arith, ok, true, false, some, inl}
use sponge_2021fall.Seqno.{WrappingInt32, wrap, unwrap}
use sponge_2021fall.ByteStream.{ByteStream}
use sponge_2021fall.Tcp.Config.{TcpConfig}
use sponge_2021fall.Tcp.Segment.{
  TcpSegment, default_header, default_segment, length_in_sequence_space,
}
use sponge_2021fall.Tcp.Receiver.{TcpReceiver}
use sponge_2021fall.Tcp.Receiver
use sponge_2021fall.Tcp.Sender.{TcpSender}
use sponge_2021fall.Tcp.Sender
use sponge_2021fall.Tcp.State.{State, of_state}
use sponge_2021fall.Tcp.State.{equals as same_state}
use sponge_2021fall.Reassembler.{push_substring}
use sponge_2021fall.Tcp.Connection.{
  TcpConnection, active, state, tick, segment_received, length_in_sequence_space,
}
use sponge_2021fall.Tcp.Connection.Reset.{SendsReset, segment_received-reset, tick-reset}
use sponge_2021fall.Tcp.Connection.Answer.{Answers, segment_received-Answers, heard}

abbrev isn : WrappingInt32
isn = record { raw_value = 5 }

abbrev config : TcpConfig
config = record { rt_timeout = 1000; recv_capacity = 16; send_capacity = 16; fixed_isn = some isn }

-- A stream that has ended with nothing in it.
abbrev ended_stream : ByteStream
ended_stream = record {
  str = [];
  capacity = 16;
  cur_cap = 0;
  bytes_written = 0;
  bytes_read = 0;
  input_is_end = true;
  error = false;
}

abbrev receiver : TcpReceiver
receiver = record {
  reassembler = record {
    output = ended_stream;
    capacity = 16;
    eof = true;
    cur_index = 0;
    list = [];
  };
  isn = some isn;
  capacity = 16;
}

-- SYN and FIN are acknowledged.
abbrev sender : TcpSender
sender = record {
  isn = isn;
  segments_out = [];
  initial_retransmission_timeout = 1000;
  stream = ended_stream;
  next_seqno = 2;
  window_size = 16;
  bytes_in_flight = 0;
  una_seqno = 2;
  outstanding_segments = [];
  timer = record { ddl = 0; cur = 0; is_start = false };
  cur_time = 0;
  cur_rto = 1000;
  consecutive_retrans_times = 0;
  is_transmission_ended = true;
}

abbrev done : TcpConnection
done = record {
  cfg = config;
  receiver = receiver;
  sender = sender;
  segments_out = [];
  linger_after_streams_finish = true;
  time_since_last_seg_received = 9000;
}

abbrev reset : TcpSegment
reset = record { header = record default_header { rst = true }; payload = 1 ∷ [] }

segment_received-reset_example :
    (c : TcpConnection) × (segment_received done reset ≡ ok c)
    × (state c ≡ of_state State.reset)
    × (active c ≡ false)
    × (c.segments_out ≡ [])
segment_received-reset_example = segment_received-reset done reset refl

-- The FIN of the peer again.
abbrev fin : TcpSegment
fin = record {
  header = record default_header { seqno = wrap 1 isn; fin = true; ack = true; ackno = wrap 2 isn };
  payload = [];
}

-- The receiver has had the FIN, and stays as it is.
segment_received-fin : Receiver.segment_received receiver fin ≡ ok receiver
unfolding Receiver.segment_received push_substring unwrap wrap
segment_received-fin = refl

state-done : same_state (state (heard done)) (of_state State.listen) ≡ false
unfolding state of_state same_state
state-done = refl

segment_received-Answers_example :
    (c : TcpConnection) × (segment_received done fin ≡ ok c) × Answers receiver done c
segment_received-Answers_example =
    segment_received-Answers done fin receiver refl (unfold length_in_sequence_space in omega arith)
      (inl state-done) segment_received-fin

-- Nine retransmissions of the SYN.
abbrev retrying : TcpConnection
retrying = record done {
  sender = record sender {
    next_seqno = 1;
    bytes_in_flight = 1;
    outstanding_segments = default_segment ∷ [];
    timer = record { ddl = 1000; cur = 0; is_start = true };
    consecutive_retrans_times = 8;
  };
}

tick-reset_example :
    SendsReset retrying (tick retrying 1000)
    × (state (tick retrying 1000) ≡ of_state State.reset)
    × (active (tick retrying 1000) ≡ false)
tick-reset_example = tick-reset retrying 1000 (unfold Sender.tick in omega arith)

abbrev queued : TcpConnection
queued = record done { sender = record sender { segments_out = fin ∷ fin ∷ [] } }
