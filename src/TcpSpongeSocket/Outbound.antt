-- ===== src/TcpSpongeSocket/Outbound.antt =====
-- Rule 2 of libsponge/tcp_helpers/tcp_sponge_socket.cc: from the owner into the connection.
use sponge_2021fall.Common.{ℕ, ◌≡◌, ◌||◌, List, ◌++◌, length, ◌==◌, if◌then◌else◌}
use sponge_2021fall.ByteStream.Fifo
use sponge_2021fall.FileDescriptor.{System}
use sponge_2021fall.FileDescriptor.Calls.{Behaves}
use sponge_2021fall.Tcp.Connection.{write, end_input_stream}
use sponge_2021fall.TcpSpongeSocket.Base.{Driver, Thread}

module _ {A W : Type 0} (driver : Driver A W) (system : System W) (taken given : ℕ → W → List ℕ)
    (h : Behaves system taken given) where
  -- The bytes `bytes` of the owner have gone to the connection, with their end where it is reached.
  pub record Takes (s t : Thread A W) : Type 0 where
    pub bytes : List ℕ
    pub took :
        (j : ℕ)
        → taken j t.ends.world ≡ (
            if j == s.ends.thread_data.fd_num
            then taken j s.ends.world ++ bytes
            else taken j s.ends.world)
    pub gave : (j : ℕ) → given j t.ends.world ≡ given j s.ends.world
    pub all : (write s.tcp bytes).0 ≡ length bytes
    pub handed : t.tcp ≡ (
        if t.ends.thread_data.eof
        then end_input_stream (write s.tcp bytes).1
        else (write s.tcp bytes).1)
    pub ended : t.ends.outbound_shutdown ≡ (t.ends.thread_data.eof || s.ends.outbound_shutdown)
    pub number : t.ends.thread_data.fd_num ≡ s.ends.thread_data.fd_num
    pub inbound : t.ends.inbound_shutdown ≡ s.ends.inbound_shutdown
