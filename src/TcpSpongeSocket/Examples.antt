-- ===== src/TcpSpongeSocket/Examples.antt =====
-- A new connection, an adapter that takes all and gives nothing, and a system that behaves.
use sponge_2021fall.Common.{
  ℕ, ◌≡◌, refl, arith, true, false, none, some, List, [], ◌∷◌, ◌++◌, length, take, length-take,
  ◌==◌, if◌then◌else◌, ok, ok-Yields, Yields,
}
use sponge_2021fall.ByteStream.Fifo.{init-IsValid}
use sponge_2021fall.Seqno.{WrappingInt32}
use sponge_2021fall.FileDescriptor.{Descriptor, System}
use sponge_2021fall.FileDescriptor.Calls.{Behaves}
use sponge_2021fall.EventLoop.{PollFd, Polled, timed_out, service}
use sponge_2021fall.Tcp.Config.{TcpConfig}
use sponge_2021fall.Tcp.Segment.{TcpSegment}
use sponge_2021fall.Tcp.Connection.{TcpConnection}
use sponge_2021fall.Tcp.Connection
use sponge_2021fall.Reassembler
use sponge_2021fall.Tcp.Receiver
use sponge_2021fall.Tcp.Sender
use sponge_2021fall.Adapter.Base.{default_config, default_adapter}
use sponge_2021fall.Wire.Buffer.{view_size}
use sponge_2021fall.Socket.{Datagrams}
use sponge_2021fall.TcpSpongeSocket.Drivers.{UdpAdapter, over_udp}
use sponge_2021fall.TcpSpongeSocket.Drivers.Count.{drivers-Counts}
use sponge_2021fall.TcpSpongeSocket.Base.{init, Driver, Ends, Thread, Socket}
use sponge_2021fall.TcpSpongeSocket.Rules.{
  read_segment, read_owner, write_owner, write_segments, with_rules,
}
use sponge_2021fall.TcpSpongeSocket.Life.{Round, Ending, tcp_main}
use sponge_2021fall.TcpSpongeSocket.Inbound.{Passes, write_owner-Passes}
use sponge_2021fall.TcpSpongeSocket.Busy.{service-rules}
use sponge_2021fall.TcpSpongeSocket.Abort.{tcp_main_abort}

record World : Type 0 where
  taken : ℕ → List ℕ
  given : ℕ → List ℕ
  sent : List TcpSegment

abbrev log : (ℕ → List ℕ) → ℕ → List ℕ → ℕ → List ℕ
log logs fd bytes = λ j. if j == fd then logs j ++ bytes else logs j

abbrev two_bytes : List ℕ
two_bytes = 7 ∷ 8 ∷ []

abbrev system : System World
system = record {
  read = λ fd size w.
      ok (take size two_bytes, record w { taken = log w.taken fd (take size two_bytes) });
  writev = λ fd bytes w.
      ok (length bytes, record w { given = log w.given fd (take (length bytes) bytes) });
  close = λ fd w. ok w;
  shutdown = λ fd how w. ok w;
}

abbrev taken : ℕ → World → List ℕ
taken j w = w.taken j

abbrev given : ℕ → World → List ℕ
given j w = w.given j

abbrev sent : World → List TcpSegment
sent w = w.sent

system-Behaves : Behaves system taken given
system-Behaves = record {
  reads = λ fd size w.
      ok-Yields _ _ (omega (arith, length-take size two_bytes), (λ j. refl), (λ j. refl));
  writes = λ fd bytes w. ok-Yields _ _ (omega arith, ground arith, (λ j. refl), (λ j. refl));
  closes = λ fd w. ok-Yields _ w ((λ j. refl), (λ j. refl));
  shuts = λ fd how w. ok-Yields _ w ((λ j. refl), (λ j. refl));
}

-- The adapter is its descriptor.
abbrev driver : Driver Descriptor World
driver = record {
  fd = λ a. a;
  set_config = λ a c. a;
  set_listening = λ a l. a;
  read = λ a w. ok (none, record a { read_count = if a.read_count == 0 then 1 else 0 }, w);
  write = λ a seg w. ok (a, record w { sent = w.sent ++ seg ∷ [] });
  tick = λ a ms w. ok (a, w);
}

abbrev descriptor : ℕ → Descriptor
descriptor fd_num = record {
  fd_num = fd_num;
  eof = false;
  closed = false;
  read_count = 0;
  write_count = 0;
}

abbrev ends : Ends Descriptor World
ends = record {
  owner = descriptor 3;
  thread_data = descriptor 4;
  datagram_adapter = descriptor 5;
  inbound_shutdown = false;
  outbound_shutdown = false;
  fully_acked = false;
  world = record { taken = λ j. []; given = λ j. []; sent = [] };
}

abbrev config : TcpConfig
config = record {
  rt_timeout = 1000;
  recv_capacity = 64000;
  send_capacity = 64000;
  fixed_isn = none;
}

abbrev isn : WrappingInt32
isn = record { raw_value = 5 }

abbrev thread : Thread Descriptor World
thread = record { tcp = Connection.connect (Connection.init config isn); ends = ends }

abbrev fresh_thread : Thread Descriptor World
fresh_thread = record { tcp = Connection.init config isn; ends = ends }

write_owner-Passes_example :
    Yields
      (Passes driver system taken given system-Behaves fresh_thread)
      ((write_owner driver system).callback fresh_thread)
unfolding Connection.init
write_owner-Passes_example =
    write_owner-Passes driver system taken given system-Behaves fresh_thread
      (unfold Receiver.init in unfold Reassembler.init in init-IsValid 64000 (omega arith))

-- A network that gives empty datagrams and takes all.
abbrev net : Datagrams World
net = record {
  recvfrom = λ fd buffer w.
      ok (record { source = default_config.source; recv_len = 0; buffer = buffer }, w);
  sendmsg = λ fd destination payload w. ok (view_size payload, w);
}

-- The thread over UDP.
abbrev udp_thread : Thread UdpAdapter World
udp_thread = record {
  tcp = thread.tcp;
  ends = record {
    owner = descriptor 3;
    thread_data = descriptor 4;
    datagram_adapter = record { base = default_adapter; sock = descriptor 5 };
    inbound_shutdown = false;
    outbound_shutdown = false;
    fully_acked = false;
    world = ends.world;
  };
}

abbrev udp : Driver UdpAdapter World
udp = over_udp system net

service-rules_example :
    (service (read_segment udp system) true udp_thread
      ≡ (read_segment udp system).callback udp_thread)
    × (service (read_owner udp system) true udp_thread
        ≡ (read_owner udp system).callback udp_thread)
    × (service (write_owner udp system) true udp_thread
        ≡ (write_owner udp system).callback udp_thread)
    × (service (write_segments udp system) true udp_thread
        ≡ (write_segments udp system).callback udp_thread)
service-rules_example = service-rules udp system (drivers-Counts system net).0 udp_thread

abbrev silent : List PollFd → Polled
silent entries = timed_out

abbrev last_round : Round
last_round = record { poll = silent; aborted = true; now = 10 }

abbrev running_socket : Socket Descriptor World
running_socket = record {
  tcp = some thread.tcp;
  eventloop = with_rules driver system [];
  ends = ends;
}

tcp_main_abort_example :
    Yields
      (λ (t : Ending × Socket Descriptor World). (t.1.tcp ≡ none) × (sent t.1.ends.world ≡ []))
      (tcp_main driver system 0 (last_round ∷ []) running_socket)
tcp_main_abort_example =
    tcp_main_abort driver system sent running_socket thread.tcp last_round [] 0 refl refl refl
      (λ entries. refl) (λ fd how w. ok-Yields _ _ refl)
