-- ===== src/TcpSpongeSocket/Clients.antt =====
-- `CS144TCPSocket` and `FullStackSocket` of libsponge/tcp_helpers/tcp_sponge_socket.cc, whose random
-- port number is the argument `rand`.
use sponge_2021fall.Common.{ℕ, u16, List, Result, ◌+◌, ◌*◌}
use sponge_2021fall.Address.{Address}
use sponge_2021fall.FileDescriptor.{System}
use sponge_2021fall.Seqno.{WrappingInt32}
use sponge_2021fall.Tcp.Config.{TcpConfig}
use sponge_2021fall.Tcp.Config
use sponge_2021fall.Wire.Buffer.{BufferList}
use sponge_2021fall.Adapter.Base.{AdapterConfig, default_config}
use sponge_2021fall.Adapter.OverEthernet.{EthernetAdapter}
use sponge_2021fall.Adapter.OverEthernet
use sponge_2021fall.Socket.{Datagrams}
use sponge_2021fall.Simulator.Addresses.{random_host_ethernet_address}
use sponge_2021fall.TcpSpongeSocket.Base.{Socket}
use sponge_2021fall.TcpSpongeSocket.Drivers.{TunAdapter, TapAdapter, over_tun, over_tap}
use sponge_2021fall.TcpSpongeSocket.Life.{Round, Ending, connect}

-- "169.254.144.9", "169.254.10.9" and "169.254.10.1"
abbrev pub cs144_address : ℕ
cs144_address = ((169 * 256 + 254) * 256 + 144) * 256 + 9

abbrev pub local_tap_ip_address : ℕ
local_tap_ip_address = ((169 * 256 + 254) * 256 + 10) * 256 + 9

abbrev pub local_tap_next_hop_address : ℕ
local_tap_next_hop_address = ((169 * 256 + 254) * 256 + 10) * 256 + 1

-- The configuration of both, with a short timeout.
unfoldable pub client_config : TcpConfig
client_config = record Config.default_config { rt_timeout = 100 }

unfoldable pub multiplexer_config : ℕ → ℕ → Address → AdapterConfig
multiplexer_config source rand address = record default_config {
  source = record { ip = source; port = u16 rand };
  destination = address;
}

module _ {W : Type 0} (system : System W) (net : Datagrams W) where
  -- `CS144TCPSocket::connect`
  unfoldable pub cs144_connect :
      ℕ
      → Address
      → WrappingInt32
      → ℕ
      → List Round
      → Socket TunAdapter W
      → Result (Ending × Socket TunAdapter W)
  cs144_connect rand address isn start rounds s =
      connect (over_tun system net) system client_config
        (multiplexer_config cs144_address rand address) isn start rounds s

  -- `FullStackSocket::connect`
  unfoldable pub full_stack_connect :
      ℕ
      → Address
      → WrappingInt32
      → ℕ
      → List Round
      → Socket TapAdapter W
      → Result (Ending × Socket TapAdapter W)
  full_stack_connect rand address isn start rounds s =
      connect (over_tap system net) system client_config
        (multiplexer_config local_tap_ip_address rand address) isn start rounds s

-- The adapter that `FullStackSocket()` makes, with the frame that it writes.
unfoldable pub full_stack_adapter : List ℕ → BufferList × EthernetAdapter
full_stack_adapter words =
    OverEthernet.init (random_host_ethernet_address words)
      (record { ip = local_tap_ip_address; port = 0 })
      (record { ip = local_tap_next_hop_address; port = 0 })
