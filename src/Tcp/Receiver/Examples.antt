-- ===== src/Tcp/Receiver/Examples.antt =====
-- Runs of libsponge/tcp_receiver.cc.
use sponge_2021fall.Common.{◌≡◌, ◌^◌, ◌-◌, [], ◌∷◌, refl, arith, ok, some, true, false}
use sponge_2021fall.Seqno.{WrappingInt32, wrap}
use sponge_2021fall.Seqno.RoundTrip.{dist}
use sponge_2021fall.ByteStream.{ByteStream}
use sponge_2021fall.Reassembler.{Reassembler}
use sponge_2021fall.Reassembler.Push.{Pushed}
use sponge_2021fall.Tcp.Segment.{TcpSegment, default_header}
use sponge_2021fall.Tcp.Receiver.{TcpReceiver, segment_received}
use sponge_2021fall.Tcp.Receiver.Accept.{segment_received-Pushed}

-- The highest number: the first byte of the stream has number 0 on the wire.
abbrev isn : WrappingInt32
isn = record { raw_value = 2 ^ 32 - 1 }

abbrev output : ByteStream
output = record {
  str = 1 ∷ [];
  capacity = 4;
  cur_cap = 1;
  bytes_written = 2;
  bytes_read = 1;
  input_is_end = false;
  error = false;
}

abbrev buffer : Reassembler
buffer = record { output = output; capacity = 4; eof = false; cur_index = 2; list = [] }

abbrev synchronised : TcpReceiver
synchronised = record { reassembler = buffer; capacity = 4; isn = some isn }

-- A segment for index 3, past the missing byte 2.
abbrev ahead : TcpSegment
ahead = record { header = record default_header { seqno = wrap 4 isn }; payload = 7 ∷ 8 ∷ 9 ∷ [] }

segment_received-Pushed_example :
    (q : Reassembler) × (segment_received synchronised ahead
      ≡ ok (record synchronised { reassembler = q; isn = some isn }))
    × Pushed buffer (7 ∷ 8 ∷ 9 ∷ []) 3 q
segment_received-Pushed_example =
    segment_received-Pushed synchronised isn ahead 3 refl refl refl
      (record {
        valid = ground arith;
        word = omega arith;
        isn_word = omega arith;
        near = unfold dist in omega arith;
        in_window = omega arith;
        end_word = omega arith;
      })
      (omega arith)

abbrev opening : TcpSegment
opening = record { header = record default_header { seqno = isn; syn = true }; payload = 1 ∷ [] }
