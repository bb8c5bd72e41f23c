-- ===== src/Tcp/Receiver/Window.antt =====
-- `ackno` and `window_size` of libsponge/tcp_receiver.cc against what the receiver takes.
use sponge_2021fall.Common.{some, ◌≡◌, none, ◌+◌, ◌<◌, if◌then◌else◌, ◌^◌, arith, ◌-◌, ◌≤◌}
use sponge_2021fall.Seqno.{wrap, WrappingInt32}
use sponge_2021fall.ByteStream.{input_ended}
use sponge_2021fall.Reassembler.Finish.{IsValid, top}
use sponge_2021fall.Tcp.Receiver.{TcpReceiver, ackno, ackno_absolute, window_size, stream_out}

-- The receiver's capacity is that of its stream.
pub record Sized (r : TcpReceiver) : Type 0 where
  pub valid : IsValid r.reassembler
  pub capacity : r.capacity ≡ (stream_out r).capacity
  pub word : top r.reassembler < 2 ^ 64 - 2

-- What is announced is what is taken: the acknowledged number is one past the bytes written, and
-- two past them once the stream has ended; and the window reaches from there to the first byte that
-- does not fit.
pub announced :
    (r : TcpReceiver)
    → Sized r
    → (ackno_absolute r
        ≡ r.reassembler.cur_index + 1 + (if input_ended (stream_out r) then 1 else 0))
      × (r.reassembler.cur_index + window_size r ≡ top r.reassembler)
      × (window_size r ≤ r.capacity)
unfolding ackno_absolute window_size
announced r h = ground arith

-- An acknowledgment number is there exactly when a SYN has come, and is that number on the wire.
pub ackno-eq :
    (r : TcpReceiver)
    → ((r.isn ≡ none) → ackno r ≡ none)
      × ((isn : WrappingInt32) → r.isn ≡ some isn → ackno r ≡ some (wrap (ackno_absolute r) isn))
unfolding ackno
ackno-eq r = (λ e. ground arith, λ isn e. ground arith)
