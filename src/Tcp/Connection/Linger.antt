-- ===== src/Tcp/Connection/Linger.antt =====
-- How long a connection of libsponge/tcp_connection.cc stays active after its streams have ended.
use sponge_2021fall.Common.{◌≡◌, ◌≤◌, true, false, []}
use sponge_2021fall.Tcp.Config.{max_retx_attempts}
use sponge_2021fall.Tcp.Receiver.{stream_out}
use sponge_2021fall.Tcp.Sender
use sponge_2021fall.Tcp.Timer
use sponge_2021fall.Tcp.Connection.{TcpConnection}

-- Both streams have ended and all that was sent is acknowledged, without an error.
pub record IsDone (c : TcpConnection) : Type 0 where
  pub out_ended : c.sender.stream.input_is_end ≡ true
  pub in_ended : (stream_out c.receiver).input_is_end ≡ true
  pub out_sound : c.sender.stream.error ≡ false
  pub in_sound : (stream_out c.receiver).error ≡ false
  pub acknowledged : c.sender.bytes_in_flight ≡ 0
  pub none_outstanding : c.sender.outstanding_segments ≡ []
  pub few_retries : c.sender.consecutive_retrans_times ≤ max_retx_attempts
