-- ===== src/Adapter/OverTun.antt =====
-- `TCPOverIPv4OverTunFdAdapter` of libsponge/tcp_helpers/tuntap_adapter.hh. What the tunnel device
-- gives is an argument, and what it is given is a result.
use sponge_2021fall.Common.{Option, none, List, ℕ, if◌then◌else◌, Result, ok, ◌>>=◌}
use sponge_2021fall.Tcp.Segment.{TcpSegment}
use sponge_2021fall.Wire.Parser.{is_error}
use sponge_2021fall.Wire.Buffer.{BufferList}
use sponge_2021fall.Wire.Datagram.{Ipv4Datagram, default_datagram}
use sponge_2021fall.Wire.Datagram
use sponge_2021fall.Adapter.Base.{Adapter}
use sponge_2021fall.Adapter.OverIp.{unwrap_tcp_in_ip, wrap_tcp_in_ip}

-- `read`, of what `_tun.read()` gives.
unfoldable pub read : Adapter → List ℕ → Result (Option TcpSegment × Adapter)
read a bytes =
    let (ret, ip_dgram) = Datagram.parse default_datagram bytes in
    if is_error ret then ok (none, a) else unwrap_tcp_in_ip a ip_dgram

-- `write`: what `_tun.write` is given, and the segment that it changes.
unfoldable pub write : Adapter → TcpSegment → Result (BufferList × TcpSegment)
write a seg = wrap_tcp_in_ip a seg >>= λ (w : Ipv4Datagram × TcpSegment).
    Datagram.serialize w.0 >>= λ (bufs : BufferList). ok (bufs, w.1)
