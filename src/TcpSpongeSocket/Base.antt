-- ===== src/TcpSpongeSocket/Base.antt =====
-- The state of a `TCPSpongeSocket` of libsponge/tcp_helpers/tcp_sponge_socket.hh. The adapter is an
-- interface, and the system calls act on the system's state `W`.
use sponge_2021fall.Common.{none, [], false, ℕ, Bool, Option, List, Result}
use sponge_2021fall.ByteStream.{ByteStream}
use sponge_2021fall.FileDescriptor.{Descriptor}
use sponge_2021fall.EventLoop.{Rule}
use sponge_2021fall.Tcp.Segment.{TcpSegment}
use sponge_2021fall.Tcp.Connection.{TcpConnection}
use sponge_2021fall.Adapter.Base.{AdapterConfig}

-- What the socket calls of an adapter, its type parameter `AdaptT`.
pub record Driver (A W : Type 0) : Type 0 where
  pub fd : A → Descriptor
  -- `config_mut() = c`
  pub set_config : A → AdapterConfig → A
  pub set_listening : A → Bool → A
  pub read : A → W → Result (Option TcpSegment × A × W)
  pub write : A → TcpSegment → W → Result (A × W)
  pub tick : A → ℕ → W → Result (A × W)

-- The members but for `_tcp`, `_eventloop` and `_abort`: the two ends of the socket pair, the first
-- of which is the owner's, the adapter and the flags. `world` is the system.
pub record Ends (A W : Type 0) : Type 0 where
  pub owner : Descriptor
  pub thread_data : Descriptor
  pub datagram_adapter : A
  pub inbound_shutdown : Bool
  pub outbound_shutdown : Bool
  pub fully_acked : Bool
  pub world : W

-- What the rules share, where `_tcp` has a value.
pub record Thread (A W : Type 0) : Type 0 where
  pub tcp : TcpConnection
  pub ends : Ends A W

pub record Socket (A W : Type 0) : Type 0 where
  pub tcp : Option TcpConnection
  pub eventloop : List (Rule (Thread A W))
  pub ends : Ends A W

-- The inbound stream is a member of the connection's receiver.
abbrev pub with_inbound : TcpConnection → ByteStream → TcpConnection
with_inbound c stream = record c {
  receiver = record (c.receiver) {
    reassembler = record (c.receiver.reassembler) { output = stream };
  };
}

-- The constructor, from the two ends of a socket pair. That `thread_data` is made non-blocking is a
-- flag of the system.
unfoldable pub init : {A W : Type 0} → Descriptor → Descriptor → A → W → Socket A W
init first second datagram_interface world = record {
  tcp = none;
  eventloop = [];
  ends = record {
    owner = first;
    thread_data = second;
    datagram_adapter = datagram_interface;
    inbound_shutdown = false;
    outbound_shutdown = false;
    fully_acked = false;
    world = world;
  };
}
