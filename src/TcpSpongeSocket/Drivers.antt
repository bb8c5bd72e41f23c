-- ===== src/TcpSpongeSocket/Drivers.antt =====
-- The adapters over which libsponge/tcp_helpers/tcp_sponge_socket.cc is instantiated, each with the
-- descriptor of its socket or device.
pub mod Count
pub mod Lossy
use sponge_2021fall.Common.{ℕ, ◌-◌, ◌^◌, true, Option, List, [], ◌∷◌, Result, ok, ◌>>=◌}
use sponge_2021fall.Address.{Address}
use sponge_2021fall.FileDescriptor.{Descriptor, System}
use sponge_2021fall.FileDescriptor
use sponge_2021fall.Socket.{Datagrams, recv, sendto, default_mtu}
use sponge_2021fall.Tcp.Segment.{TcpSegment}
use sponge_2021fall.Wire.Buffer.{BufferList, concatenate}
use sponge_2021fall.Adapter.Base.{Adapter, set_listening}
use sponge_2021fall.Adapter.OverUdp.{Received}
use sponge_2021fall.Adapter.OverUdp
use sponge_2021fall.Adapter.OverTun
use sponge_2021fall.Adapter.OverEthernet.{EthernetAdapter}
use sponge_2021fall.Adapter.OverEthernet
use sponge_2021fall.TcpSpongeSocket.Base.{Driver}

-- `TCPOverUDPSocketAdapter`
pub record UdpAdapter : Type 0 where
  pub base : Adapter
  pub sock : Descriptor

-- `TCPOverIPv4OverTunFdAdapter`
pub record TunAdapter : Type 0 where
  pub base : Adapter
  pub tun : Descriptor

-- `TCPOverIPv4OverEthernetAdapter`
pub record TapAdapter : Type 0 where
  pub base : EthernetAdapter
  pub tap : Descriptor

-- The default of `limit` in `FileDescriptor::read`.
abbrev pub no_limit : ℕ
no_limit = 2 ^ 64 - 1

module _ {W : Type 0} (system : System W) (net : Datagrams W) where
  unfoldable pub over_udp : Driver UdpAdapter W
  over_udp = record {
    fd = λ a. a.sock;
    set_config = λ a c. record a { base = record (a.base) { cfg = c } };
    set_listening = λ a l. record a { base = set_listening a.base l };
    read = λ a w. recv net a.sock default_mtu w >>= λ (r : Received × Descriptor × W).
        (let (seg, base) = OverUdp.read a.base r.0 in
          ok (seg, record { base = base; sock = r.1 }, r.2));
    write = λ a seg w. OverUdp.write a.base seg >>= λ (p : Address × BufferList × TcpSegment).
        sendto net a.sock p.0 p.1 w >>= λ (r : Descriptor × W). ok (record a { sock = r.0 }, r.1);
    tick = λ a ms w. ok (a, w);
  }

  unfoldable pub over_tun : Driver TunAdapter W
  over_tun = record {
    fd = λ a. a.tun;
    set_config = λ a c. record a { base = record (a.base) { cfg = c } };
    set_listening = λ a l. record a { base = set_listening a.base l };
    read = λ a w. FileDescriptor.read system a.tun no_limit w >>= λ (r : List ℕ × Descriptor × W).
        OverTun.read a.base r.0 >>= λ (p : Option TcpSegment × Adapter).
        ok (p.0, record { base = p.1; tun = r.1 }, r.2);
    write = λ a seg w. OverTun.write a.base seg >>= λ (p : BufferList × TcpSegment).
        FileDescriptor.write system a.tun (concatenate p.0) true w >>= λ (r : ℕ × Descriptor × W).
        ok (record a { tun = r.1 }, r.2);
    tick = λ a ms w. ok (a, w);
  }

  -- The loop of `send_pending` over the frames.
  unfoldable pub write_frames : List BufferList → Descriptor → W → Result (Descriptor × W)
  write_frames [] tap w = ok (tap, w)
  write_frames (frame ∷ frames) tap w =
      FileDescriptor.write system tap (concatenate frame) true w >>= λ (r : ℕ × Descriptor × W).
      write_frames frames r.1 r.2

  unfoldable pub over_tap : Driver TapAdapter W
  over_tap = record {
    fd = λ a. a.tap;
    set_config =
        λ a c. record a { base = record (a.base) { base = record (a.base.base) { cfg = c } } };
    set_listening =
        λ a l. record a { base = record (a.base) { base = set_listening a.base.base l } };
    read = λ a w. FileDescriptor.read system a.tap no_limit w >>= λ (r : List ℕ × Descriptor × W).
        OverEthernet.read a.base r.0
        >>= λ (p : Option TcpSegment × List BufferList × EthernetAdapter).
            write_frames p.1 r.1 r.2 >>= λ (q : Descriptor × W).
            ok (p.0, record { base = p.2; tap = q.0 }, q.1);
    write = λ a seg w.
        OverEthernet.write a.base seg >>= λ (p : TcpSegment × List BufferList × EthernetAdapter).
        write_frames p.1 a.tap w >>= λ (q : Descriptor × W).
        ok (record { base = p.2; tap = q.0 }, q.1);
    tick = λ a ms w.
        (let (frames, base) = OverEthernet.tick a.base ms in
          write_frames frames a.tap w >>= λ (q : Descriptor × W).
          ok (record { base = base; tap = q.0 }, q.1));
  }
