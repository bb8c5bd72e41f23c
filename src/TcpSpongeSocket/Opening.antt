-- ===== src/TcpSpongeSocket/Opening.antt =====
-- `connect` and `listen_and_accept` of libsponge/tcp_helpers/tcp_sponge_socket.cc: how a connection
-- starts.
use sponge_2021fall.Common.{ℕ, ◌≡◌, List, ok, ◌>>=◌}
use sponge_2021fall.FileDescriptor.{System}
use sponge_2021fall.EventLoop.{Rule}
use sponge_2021fall.Seqno.{WrappingInt32}
use sponge_2021fall.Tcp.Config.{TcpConfig}
use sponge_2021fall.Tcp.State.{of_state, State}
use sponge_2021fall.Tcp.State.{equals as same_state}
use sponge_2021fall.Tcp.Connection.{TcpConnection, state}
use sponge_2021fall.Tcp.Connection
use sponge_2021fall.Tcp.Connection.Opening.{Opened}
use sponge_2021fall.Adapter.Base.{AdapterConfig}
use sponge_2021fall.TcpSpongeSocket.Base.{Driver, Thread, Socket}
use sponge_2021fall.TcpSpongeSocket.Rules.{with_rules}
use sponge_2021fall.TcpSpongeSocket.Life.{Round, Ending, connect, tcp_loop, joined}

module _ {A W : Type 0} (driver : Driver A W) (system : System W) where
  -- What `connect` does to a socket without a connection: it waits in the state SYN_SENT with a
  -- connection that has queued one segment, its SYN.
  pub record Connects (c_tcp : TcpConfig) (c_ad : AdapterConfig) (isn : WrappingInt32) (start : ℕ)
      (rounds : List Round) (s : Socket A W) : Type 0 where
    pub tcp : TcpConnection
    pub opened : Opened isn tcp
    pub waits : connect driver system c_tcp c_ad isn start rounds s ≡ (
        tcp_loop driver system
          (λ c. same_state (state c) (of_state State.syn_sent))
          rounds
          start
          (with_rules driver system s.eventloop)
          (record {
            tcp = tcp;
            ends = record (s.ends) {
              datagram_adapter = driver.set_config s.ends.datagram_adapter c_ad;
            };
          })
        >>= λ (r : Ending × List (Rule (Thread A W)) × Thread A W). ok (joined driver system r))
