-- ===== src/Socket.antt =====
-- The datagrams of libsponge/util/socket.hh and .cc: `UDPSocket`. The calls that receive and send are
-- the system's; `shutdown` is in FileDescriptor.
pub mod Receive
mod Examples
use sponge_2021fall.Common.{
  ℕ, zero, suc, not, Option, none, some, List, [], ◌∷◌, ◌++◌, ◌-◌, length, take, ltb, ◌==◌,
  if◌then◌else◌, Result, ok, throw, runtime_error, ◌>>=◌,
}
use sponge_2021fall.Address.{Address}
use sponge_2021fall.FileDescriptor.{Descriptor, register_read, register_write}
use sponge_2021fall.Wire.Buffer.{BufferList, concatenate, list_size, view_size}
use sponge_2021fall.Adapter.OverUdp.{Received}

-- What `recvfrom` does with MSG_TRUNC: the source, the length of the whole datagram, and the buffer
-- afterwards.
pub record Truncated : Type 0 where
  pub source : Address
  pub recv_len : ℕ
  pub buffer : List ℕ

pub record Datagrams (W : Type 0) : Type 0 where
  pub recvfrom : ℕ → List ℕ → W → Result (Truncated × W)
  -- To an address, or to the peer of a connected socket; with the number of bytes sent.
  pub sendmsg : ℕ → Option Address → BufferList → W → Result (ℕ × W)

pub zeros : ℕ → List ℕ
zeros zero = []
zeros (suc n) = 0 ∷ zeros n

-- `string::resize`
unfoldable pub resize : List ℕ → ℕ → List ℕ
unfolding zeros
resize s n = take n s ++ zeros (n - length s)

-- The default of `mtu`.
abbrev pub default_mtu : ℕ
default_mtu = 65536

module _ {W : Type 0} (net : Datagrams W) where
  -- `UDPSocket::recv`. The payload that is resized to `mtu` is empty at first.
  unfoldable pub recv : Descriptor → ℕ → W → Result (Received × Descriptor × W)
  recv d mtu w = net.recvfrom d.fd_num (resize [] mtu) w >>= λ (r : Truncated × W).
      if ltb mtu r.0.recv_len
      then throw runtime_error
      else ok (
        record { source_address = r.0.source; payload = resize r.0.buffer r.0.recv_len },
        register_read d,
        r.1,
      )

  -- `sendmsg_helper`
  unfoldable pub sendmsg_helper : ℕ → Option Address → BufferList → W → Result W
  sendmsg_helper fd_num destination payload w =
      net.sendmsg fd_num destination payload w >>= λ (r : ℕ × W).
      if not (r.0 == view_size payload) then throw runtime_error else ok r.1

  -- `UDPSocket::sendto`
  unfoldable pub sendto : Descriptor → Address → BufferList → W → Result (Descriptor × W)
  sendto d destination payload w =
      sendmsg_helper d.fd_num (some destination) payload w >>= λ v. ok (register_write d, v)

  -- `UDPSocket::send`
  unfoldable pub send : Descriptor → BufferList → W → Result (Descriptor × W)
  send d payload w = sendmsg_helper d.fd_num none payload w >>= λ v. ok (register_write d, v)
